-- ===== src/Response/Writing.antt =====
-- `TcpConn::write` of server/src/TcpConn.cpp, on what the kernel answers to each `writev`. The result
-- has the bytes that the kernel took; without a further answer the loop still runs, which is `none`.
use mathlib.Core.List.{append_assoc}
use multi_agent_route_planni.Base.{
  ℕ, zero, suc, ◌≤◌, ◌<◌, ◌≡◌, ◌≢◌, refl, sym, ap, ◌∙◌, subst, Option, none, some, List, [], ◌∷◌,
  ◌++◌, if◌then◌else◌, length, take, length-append, length-take, arith, Bool-cases, Option-cases,
  All, inl, inr, some-eq,
}
use multi_agent_route_planni.Response.{Bytes, HttpResponse, IsStream}

pub data WriteStatus : Type 0 where
  complete again error : WriteStatus

pub data Answer : Type 0 where
  wrote : ℕ → Answer
  would_block interrupted failed : Answer

abbrev pub Kernel : Type 0
Kernel = List (Bytes → Answer)

module _ (R : HttpResponse) where
  abbrev pub Written : Type 0
  Written = R.State × Bytes × WriteStatus

  abbrev pub prepend : Bytes → Option Written → Option Written
  prepend sent none = none
  prepend sent (some (s, more, status)) = some (s, sent ++ more, status)

  -- What follows one answer of the kernel; the loop goes on by `more` and `retry`.
  unfoldable pub after :
      R.State → Bytes → Answer → (R.State → Option Written) → Option Written → Option Written
  after s view (wrote zero) more retry = some (s, [], again)
  after s view (wrote (suc n)) more retry =
      if R.done (R.consume (suc n) s)
      then some (R.consume (suc n) s, take (suc n) view, complete)
      else prepend (take (suc n) view) (more (R.consume (suc n) s))
  after s view would_block more retry = some (s, [], again)
  after s view interrupted more retry = retry
  after s view failed more retry = some (s, [], error)

  unfoldable pub write : Kernel → R.State → Option Written
  unfolding after
  write [] s = elim (R.next_iovec s) [ none ↦ some (s, [], complete) | some view ↦ none ]
  write (k ∷ ks) s = elim (R.next_iovec s) [
    | none ↦ some (s, [], complete)
    | some view ↦ after s view (k view) (write ks) (write ks s)
  ]

  -- `TcpConn` without a reply has nothing to write.
  unfoldable pub write_response :
      Kernel → Option R.State → Option (Option R.State × Bytes × WriteStatus)
  unfolding write
  write_response ks none = some (none, [], complete)
  write_response ks (some s) = elim (write ks s) [
    | none ↦ none
    | some (s', sent, status) ↦ some (some s', sent, status)
  ]

  -- `writev` never takes more than it is given.
  abbrev pub IsHonest : Kernel → Type 0
  IsHonest =
      All (λ (k : Bytes → Answer). (view : Bytes) (n : ℕ) → k view ≡ wrote n → n ≤ length view)

  module _ (stream : IsStream R) where
    -- What a call of the loop leaves, for the reply that it began with.
    pub record Writes (s : R.State) (o : Written) : Type 0 where
      pub in_order : o.1 ++ stream.rest o.0 ≡ stream.rest s
      pub valid : stream.IsValid o.0
      pub all_sent : o.2 ≡ complete → stream.rest o.0 ≡ []

    prepend-Writes :
        (s : R.State) (view : Bytes) (n : ℕ) (o : Written)
        → take n view ++ stream.rest (R.consume n s) ≡ stream.rest s
        → Writes (R.consume n s) o
        → Writes s (o.0, take n view ++ o.1, o.2)
    prepend-Writes s view n o e w = record {
      in_order =
          append_assoc (take n view) o.1 (stream.rest o.0)
          ∙ ap (λ (xs : Bytes). take n view ++ xs) w.in_order
          ∙ e;
      valid = w.valid;
      all_sent = w.all_sent;
    }

    stays :
        (s : R.State) (status : WriteStatus)
        → stream.IsValid s
        → (status ≡ complete → stream.rest s ≡ [])
        → Writes s (s, [], status)
    stays s status v h = record { in_order = refl; valid = v; all_sent = h }

    after-Writes :
        (s : R.State) (view : Bytes) (a : Answer) (more : R.State → Option Written)
        (retry : Option Written)
        → stream.IsValid s
        → R.next_iovec s ≡ some view
        → ((n : ℕ) → a ≡ wrote n → n ≤ length view)
        → ((t : R.State) (o : Written) → stream.IsValid t → more t ≡ some o → Writes t o)
        → ((o : Written) → retry ≡ some o → Writes s o)
        → (o : Written) → after s view a more retry ≡ some o
        → Writes s o
    unfolding after
    after-Writes s view (wrote zero) more retry v e h next again_ o r =
        subst (λ (x : Written). Writes s x) (some-eq r)
          (stays s again v (λ q. absurd (ground arith)))
    after-Writes s view (wrote (suc n)) more retry v e h next again_ o r =
        let (step, v') = stream.consume_rest s view (suc n) v e (h (suc n) refl) in
        let t = R.consume (suc n) s in
        elim (Bool-cases (R.done t)) [
          | inl over ↦
              let same : (t, take (suc n) view, complete) ≡ o =
                some-eq (sym (rw (over, after) refl) ∙ r) in
              subst (λ (x : Written). Writes s x) same
                (record { in_order = step; valid = v'; all_sent = λ q. stream.done_rest t v' over })
          | inr open_ ↦ elim (Option-cases (more t)) [
            | inl f ↦ absurd (ground (arith, open_, f))
            | inr (p, f) ↦
                let same : (p.0, take (suc n) view ++ p.1, p.2) ≡ o =
                  some-eq (sym (rw (open_, after, f) refl) ∙ r) in
                subst (λ (x : Written). Writes s x) same
                  (prepend-Writes s view (suc n) p step (next t p v' f))
          ]
        ]
    after-Writes s view would_block more retry v e h next again_ o r =
        subst (λ (x : Written). Writes s x) (some-eq r)
          (stays s again v (λ q. absurd (ground arith)))
    after-Writes s view interrupted more retry v e h next again_ o r = again_ o r
    after-Writes s view failed more retry v e h next again_ o r =
        subst (λ (x : Written). Writes s x) (some-eq r)
          (stays s error v (λ q. absurd (ground arith)))

    -- Whatever the kernel answers, where it never takes more than it is given, the bytes that it
    -- took and those that are left are the reply that was to be sent, in order; and the loop
    -- reports COMPLETE only when nothing is left. This holds of any reply that keeps the promise
    -- of a stream.
    pub write_lem :
        (ks : Kernel) (s : R.State) (o : Written)
        → stream.IsValid s
        → IsHonest ks
        → write ks s ≡ some o
        → Writes s o
    unfolding write
    write_lem [] s o v h r = elim (Option-cases (R.next_iovec s)) [
      | inr (view, e) ↦ absurd (ground (arith, e))
      | inl e ↦
          let same : (s, [], complete) ≡ o = some-eq (sym (rw (e, write) refl) ∙ r) in
          subst (λ (x : Written). Writes s x) same
            (stays s complete v (λ q. stream.view_none s v e))
    ]
    write_lem (k ∷ ks) s o v h r = elim (Option-cases (R.next_iovec s)) [
      | inl e ↦
          let same : (s, [], complete) ≡ o = some-eq (sym (rw (e, write) refl) ∙ r) in
          subst (λ (x : Written). Writes s x) same
            (stays s complete v (λ q. stream.view_none s v e))
      | inr (view, e) ↦
          after-Writes s view (k view) (write ks) (write ks s) v e (h.0 view)
            (λ t p w f. write_lem ks t p w h.1 f) (λ p f. write_lem ks s p v h.1 f) o
            (sym (rw (e, write) refl) ∙ r)
    ]

    -- What is left gets shorter by what is consumed of a view.
    shrinks :
        (s : R.State) (view : Bytes) (n : ℕ)
        → stream.IsValid s
        → R.next_iovec s ≡ some view
        → suc n ≤ length view
        → length (stream.rest (R.consume (suc n) s)) < length (stream.rest s)
    shrinks s view n v e h =
        let (step, _) = stream.consume_rest s view (suc n) v e h in
        let total = length-append (take (suc n) view) (stream.rest (R.consume (suc n) s)) in
        let size = length-take (suc n) view h in rw (← step) (omega (arith, total, size))

    left-positive :
        (s : R.State) (view : Bytes)
        → stream.IsValid s
        → R.next_iovec s ≡ some view
        → 0 < length (stream.rest s)
    left-positive s view v e =
        let some_left = stream.view_some s view v e in
        let (step, _) = stream.consume_rest s view (length view) v e (omega arith) in
        let total =
          length-append (take (length view) view) (stream.rest (R.consume (length view) s)) in
        let size = length-take (length view) view (omega arith) in
        rw (← step) (omega (arith, total, size, some_left))

    after-total :
        (s : R.State) (view : Bytes) (a : Answer) (more : R.State → Option Written)
        (retry : Option Written)
        → a ≢ interrupted
        → ((n : ℕ) → a ≡ wrote (suc n) → (p : Written) × (more (R.consume (suc n) s) ≡ some p))
        → (o : Written) × (after s view a more retry ≡ some o)
    unfolding after
    after-total s view (wrote zero) more retry i next = ((s, [], again), refl)
    after-total s view (wrote (suc n)) more retry i next =
        let t = R.consume (suc n) s in
        elim (Bool-cases (R.done t)) [
          | inl over ↦ ((t, take (suc n) view, complete), rw (over, after) refl)
          | inr open_ ↦
              let (p, f) = next n refl in
              ((p.0, take (suc n) view ++ p.1, p.2), rw (open_, after, f) refl)
        ]
    after-total s view would_block more retry i next = ((s, [], again), refl)
    after-total s view interrupted more retry i next = absurd (i refl)
    after-total s view failed more retry i next = ((s, [], error), refl)

    -- The loop that writes a reply ends: while the kernel is not interrupted and never takes more
    -- than it is given, it asks at most once for each byte that is left.
    pub write_total :
        (ks : Kernel) (s : R.State)
        → stream.IsValid s
        → IsHonest ks
        → All (λ (k : Bytes → Answer). (view : Bytes) → k view ≢ interrupted) ks
        → length (stream.rest s) ≤ length ks
        → (o : Written) × (write ks s ≡ some o)
    unfolding write
    write_total [] s v h i enough = elim (Option-cases (R.next_iovec s)) [
      | inl e ↦ ((s, [], complete), rw (e, write) refl)
      | inr (view, e) ↦ absurd (omega (arith, left-positive s view v e, enough))
    ]
    write_total (k ∷ ks) s v h i enough = elim (Option-cases (R.next_iovec s)) [
      | inl e ↦ ((s, [], complete), rw (e, write) refl)
      | inr (view, e) ↦
          let (o, f) = after-total s view (k view) (write ks) (write ks s) (i.0 view) (λ n q.
            let fits : suc n ≤ length view = h.0 view (suc n) q in
            let (_, v') = stream.consume_rest s view (suc n) v e fits in
            let shorter = shrinks s view n v e fits in
            write_total ks (R.consume (suc n) s) v' h.1 i.1 (omega (arith, shorter, enough))) in
          (o, rw (e, write) f)
    ]
