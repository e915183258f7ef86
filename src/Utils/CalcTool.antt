-- ===== src/Utils/CalcTool.antt =====
-- utils/calc_tool.cpp: the saturating subtraction on unsigned integers.
use integration_server.Prelude.{ℕ, ◌-◌, leb, if◌then◌else◌}

-- safeSub<uint32> and safeSub<uint64> have one text. The subtraction runs only where it does not
-- wrap.
unfoldable pub safe_sub : ℕ → ℕ → ℕ
safe_sub param1 param2 = if leb param2 param1 then param1 - param2 else 0
