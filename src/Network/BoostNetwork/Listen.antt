-- ===== src/Network/BoostNetwork/Listen.antt =====
-- What listenAt does, on every path.
use integration_server.Prelude.{
  ℕ, ◌≡◌, ◌≢◌, ◌⊎◌, refl, inl, inr, Bool, true, false, Option, none, some, ◌==◌, if◌then◌else◌,
}
use integration_server.Prelude.Map.{find, IsOrdered}
use integration_server.Prelude.Map.Laws.{find-insert, insert-IsOrdered}
use integration_server.Network.Acceptor.{
  Acceptor, new_acceptor, ListenResult, not_resolved, not_bound, listening, listen,
}
use integration_server.Network.BoostNetwork.{BoostNetwork, add_listener, listen_new, listen_at}

-- What listenAt returns and leaves, by what the map has for the port.
abbrev Outcome :
    ℕ → Bool → ListenResult → BoostNetwork → Option Acceptor → Bool × BoostNetwork → Type 0
Outcome port has_callback r n found (ok, m) =
    ((ok ≡ false) × (m ≡ n) × ((found ≢ none) ⊎ (has_callback ≡ false) ⊎ (r ≢ listening)))
    ⊎ ((ok ≡ true)
        × (found ≡ none)
        × (has_callback ≡ true)
        × (r ≡ listening)
        × IsOrdered m.listen_map
        × ((k : ℕ)
            → find k m.listen_map ≡ (
                if k == port then some (listen listening new_acceptor).1 else find k n.listen_map)))

listen_new-Outcome :
    (port : ℕ) (has_callback : Bool) (r : ListenResult) (n : BoostNetwork) (found : Option Acceptor)
    → IsOrdered n.listen_map
    → find port n.listen_map ≡ found
    → Outcome port has_callback r n found (listen_new port has_callback r found n)
unfolding listen_new add_listener listen
listen_new-Outcome port has_callback r n (some a) o e = inl (refl, refl, inl (λ h. cc))
listen_new-Outcome port false r n none o e = inl (refl, refl, inr (inl refl))
listen_new-Outcome port true not_resolved n none o e = inl (refl, refl, inr (inr (λ h. cc)))
listen_new-Outcome port true not_bound n none o e = inl (refl, refl, inr (inr (λ h. cc)))
listen_new-Outcome port true listening n none o e =
    let a = (listen listening new_acceptor).1 in
    inr (
      refl,
      refl,
      refl,
      refl,
      insert-IsOrdered port a n.listen_map o,
      λ k. find-insert k port a n.listen_map o e,
    )

-- On a network whose ports are ordered, listenAt either returns false and changes nothing, and the
-- port was taken, the callback was NULL or the acceptor could not listen; or none of these holds,
-- it returns true, and the listening acceptor stands under the port, with every other port as
-- before and the ports still ordered.
pub listen_at_lem :
    (port : ℕ) (has_callback : Bool) (r : ListenResult) (n : BoostNetwork)
    → IsOrdered n.listen_map
    → let m = listen_at port has_callback r n in
      ((m.0 ≡ false)
        × (m.1 ≡ n)
        × ((find port n.listen_map ≢ none) ⊎ (has_callback ≡ false) ⊎ (r ≢ listening)))
      ⊎ ((m.0 ≡ true)
          × (find port n.listen_map ≡ none)
          × (has_callback ≡ true)
          × (r ≡ listening)
          × IsOrdered m.1.listen_map
          × ((k : ℕ)
              → find k m.1.listen_map ≡ (
                  if k == port
                  then some (listen listening new_acceptor).1
                  else find k n.listen_map)))
unfolding listen_at
listen_at_lem port has_callback r n o =
    listen_new-Outcome port has_callback r n (find port n.listen_map) o refl
