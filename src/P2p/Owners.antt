-- ===== src/P2p/Owners.antt =====
-- tests/dev/p2p_server/p2p_server.cpp: who owns the sessions of a server.
use bcp_concept_prototype.Prelude.{
  ℕ, suc, ◌≡◌, ◌≢◌, ◌<◌, refl, sym, ◌∙◌, Bool, true, false, some, List, [], ◌∷◌, ◌++◌, arith,
  Bool-cases, inl, inr, if◌then◌else◌,
}
use bcp_concept_prototype.Wire.Udp.{Memory}
use bcp_concept_prototype.P2p.Socket.{Sockets}
use bcp_concept_prototype.P2p.Server.{
  Server, Done, accept, accepted, handle_accept, and_then, on_session, change, new_session,
}

-- Every pointer is below a bound, none is this one, and none comes twice.
abbrev pub AllBelow : ℕ → List ℕ → Type 0
AllBelow n [] = Unit
AllBelow n (p ∷ ps) = (p < n) × AllBelow n ps

abbrev pub Without : ℕ → List ℕ → Type 0
Without q [] = Unit
Without q (p ∷ ps) = (p ≢ q) × Without q ps

abbrev pub Distinct : List ℕ → Type 0
Distinct [] = Unit
Distinct (p ∷ ps) = Without p ps × Distinct ps

AllBelow-append : (n p : ℕ) (ps : List ℕ) → AllBelow n ps → p < n → AllBelow n (ps ++ (p ∷ []))
AllBelow-append n p [] b l = (l, tt)
AllBelow-append n p (q ∷ ps) b l = (b.0, AllBelow-append n p ps b.1 l)

AllBelow-suc : (n : ℕ) (ps : List ℕ) → AllBelow n ps → AllBelow (suc n) ps
AllBelow-suc n [] b = tt
AllBelow-suc n (p ∷ ps) b = (omega (arith, b.0), AllBelow-suc n ps b.1)

AllBelow-Without : (n : ℕ) (ps : List ℕ) → AllBelow n ps → Without n ps
AllBelow-Without n [] b = tt
AllBelow-Without n (p ∷ ps) b = ((λ e. omega (arith, e, b.0)), AllBelow-Without n ps b.1)

Without-append : (q p : ℕ) (ps : List ℕ) → Without q ps → p ≢ q → Without q (ps ++ (p ∷ []))
Without-append q p [] w n = (n, tt)
Without-append q p (r ∷ ps) w n = (w.0, Without-append q p ps w.1 n)

Distinct-append : (p : ℕ) (ps : List ℕ) → Distinct ps → Without p ps → Distinct (ps ++ (p ∷ []))
Distinct-append p [] d w = (tt, tt)
Distinct-append p (q ∷ ps) d w =
    (Without-append q p ps d.0 (λ e. w.0 (sym e)), Distinct-append p ps d.1 w.1)

module _ (sockets : Sockets) (nowhere : Memory) where
  -- The session that is waited for is made, and in no list; the sessions are made, and each is in
  -- the list once, so that it has one owner.
  pub record IsOwned (waiting : ℕ) (sv : Server sockets nowhere) : Type 0 where
    pub pending : sv.accept_session ≡ some waiting
    pub made : waiting < sv.next_pointer
    pub alone : Without waiting sv.sessions
    pub below : AllBelow sv.next_pointer sv.sessions
    pub once : Distinct sv.sessions

  pub accept-IsOwned :
      (rows : ℕ → Memory) (sv : Server sockets nowhere)
      → AllBelow sv.next_pointer sv.sessions
      → Distinct sv.sessions
      → IsOwned sv.next_pointer (accept sockets nowhere rows sv).server
  unfolding accept new_session change
  accept-IsOwned rows sv below once = record {
    pending = refl;
    made = omega arith;
    alone = AllBelow-Without sv.next_pointer sv.sessions below;
    below = AllBelow-suc sv.next_pointer sv.sessions below;
    once = once;
  }

  pub accept-sessions :
      (rows : ℕ → Memory) (sv : Server sockets nowhere)
      → (accept sockets nowhere rows sv).server.sessions ≡ sv.sessions
  unfolding accept new_session change
  accept-sessions rows sv = refl

  and_then-returned :
      (d : Done sockets nowhere) (rows : ℕ → Memory)
      → (and_then sockets nowhere d (accept sockets nowhere rows)).returned ≡ true
      → d.returned ≡ true
  unfolding and_then
  and_then-returned d rows r = elim (Bool-cases d.returned) [
    | inl k ↦ k
    | inr k ↦ sym (rw (and_then, k) refl) ∙ r
  ]

  and_then-IsOwned :
      (d : Done sockets nowhere) (rows : ℕ → Memory)
      → d.returned ≡ true
      → AllBelow d.server.next_pointer d.server.sessions
      → Distinct d.server.sessions
      → let after = (and_then sockets nowhere d (accept sockets nowhere rows)).server in
        IsOwned d.server.next_pointer after × (after.sessions ≡ d.server.sessions)
  unfolding and_then
  and_then-IsOwned d rows k below once =
      rw (and_then, k) (accept-IsOwned rows d.server below once, accept-sessions rows d.server)

  -- While no call of a socket throws, handle_accept() of the session that the server waits for,
  -- with an error or without, leaves the server waiting for a new session, which no list holds,
  -- with every session in the list once; without an error the session has been put there.
  pub handle_accept-IsOwned :
      (now : ℕ) (rows : ℕ → Memory) (p : ℕ) (error : Bool) (sv : Server sockets nowhere)
      → IsOwned p sv
      → (handle_accept sockets nowhere now rows p error sv).returned ≡ true
      → let after = (handle_accept sockets nowhere now rows p error sv).server in
        IsOwned sv.next_pointer after
        × (after.sessions ≡ (if error then sv.sessions else sv.sessions ++ (p ∷ [])))
  unfolding and_then handle_accept accepted on_session change
  handle_accept-IsOwned now rows p true sv v r =
      let d = accepted sockets nowhere now p true sv in
      and_then-IsOwned d rows (and_then-returned d rows r) v.below v.once
  handle_accept-IsOwned now rows p false sv v r =
      let d = accepted sockets nowhere now p false sv in
      and_then-IsOwned d rows (and_then-returned d rows r)
        (AllBelow-append sv.next_pointer p sv.sessions v.below v.made)
        (Distinct-append p sv.sessions v.once v.alone)
