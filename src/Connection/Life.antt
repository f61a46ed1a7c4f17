-- ===== src/Connection/Life.antt =====
-- Closing a connection of server/src/TcpConn.cpp, and the exchange of its state.
use multi_agent_route_planni.Base.{
  ℕ, ◌≡◌, refl, ◌∙◌, subst, Option-cases, ◌⊎◌, inl, inr, ◌||◌, Option, none, some, List, [], ◌∷◌,
  arith, Bool-cases,
}
use multi_agent_route_planni.Connection.{
  ConnState, closing, closed, same_state, TcpConn, close_conn, try_set_state,
}

-- Calls of `closeConn`, and of `trySetState` between any two states.
pub data Call : Type 0 where
  closes : Call
  sets : ConnState → ConnState → Call

abbrev report : Option ℕ → List ℕ → List ℕ
report none fds = fds
report (some fd) fds = fd ∷ fds

-- At most one descriptor is closed, and it is the connection's.
abbrev pub ClosesOnce : Option ℕ → List ℕ → Type 0
ClosesOnce fd fds = (fds ≡ []) ⊎ ((f : ℕ) × (fd ≡ some f) × (fds ≡ f ∷ []))

module _ {R : Type 0} where
  unfoldable pub apply_call : Call → TcpConn R → TcpConn R × Option ℕ
  apply_call closes c = close_conn c
  apply_call (sets expected desired) c = ((try_set_state c expected desired).0, none)

  -- The descriptors that a sequence of calls closes, in order.
  unfoldable pub closed_by : List Call → TcpConn R → List ℕ
  unfolding apply_call
  closed_by [] c = []
  closed_by (call ∷ calls) c = report (apply_call call c).1 (closed_by calls (apply_call call c).0)

  try_set_state-fd : (c : TcpConn R) (e d : ConnState) → (try_set_state c e d).0.fd ≡ c.fd
  unfolding try_set_state
  try_set_state-fd c e d = ground arith

  -- Either nothing is closed and the descriptor stays, or it is closed and gone.
  close_conn-fd :
      (c : TcpConn R)
      → (((close_conn c).1 ≡ none) × ((close_conn c).0.fd ≡ c.fd))
        ⊎ (((close_conn c).1 ≡ c.fd) × ((close_conn c).0.fd ≡ none))
  unfolding close_conn
  close_conn-fd c = elim (Bool-cases (same_state c.state closed || same_state c.state closing)) [
    | inl over ↦ inl (rw over refl, rw over refl)
    | inr live ↦ inr (rw live refl, rw live refl)
  ]

  -- Without a descriptor there is nothing to close.
  closed_by-gone : (calls : List Call) (c : TcpConn R) → c.fd ≡ none → closed_by calls c ≡ []
  unfolding closed_by apply_call
  closed_by-gone [] c h = refl
  closed_by-gone (closes ∷ calls) c h = elim (close_conn-fd c) [
    | inl (none_, stays) ↦ rw (none_, closed_by) (closed_by-gone calls (close_conn c).0 (stays ∙ h))
    | inr (it, gone) ↦ rw (it ∙ h, closed_by) (closed_by-gone calls (close_conn c).0 gone)
  ]
  closed_by-gone (sets e d ∷ calls) c h =
      closed_by-gone calls (try_set_state c e d).0 (try_set_state-fd c e d ∙ h)

  -- However often a connection is closed and its state exchanged, between any two states and in
  -- any order, one call after another, its descriptor is closed at most once, and no other is.
  pub closed_by-once : (calls : List Call) (c : TcpConn R) → ClosesOnce c.fd (closed_by calls c)
  unfolding closed_by apply_call
  closed_by-once [] c = inl refl
  closed_by-once (closes ∷ calls) c =
      let next = (close_conn c).0 in
      elim (close_conn-fd c) [
        | inl (none_, stays) ↦
            rw (none_, closed_by)
              (subst (λ (x : Option ℕ). ClosesOnce x (closed_by calls next)) stays
                (closed_by-once calls next))
        | inr (it, gone) ↦
            let after = closed_by-gone calls next gone in
            elim (Option-cases c.fd) [
              | inl e ↦ inl (rw (it ∙ e, closed_by) after)
              | inr (f, e) ↦ inr (f, e, rw (it ∙ e, closed_by, after) refl)
            ]
      ]
  closed_by-once (sets e d ∷ calls) c =
      subst (λ (x : Option ℕ). ClosesOnce x (closed_by calls (try_set_state c e d).0))
        (try_set_state-fd c e d) (closed_by-once calls (try_set_state c e d).0)
