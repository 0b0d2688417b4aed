-- ===== src/Tsdb/Rollup/Loop.antt =====
-- The loop that the three phases of the rollup of server/store/sqlite.js share.
use home_net_hub.Prelude.{
  ℕ, zero, suc, ◌+◌, ◌≤◌, ◌<◌, min, ◌≡◌, refl, sym, subst, inl, inr, Bool, true, false, ◌&&◌,
  Option, none, some, arith, ltb, ltb→lt, not_ltb→le, Bool-cases, Option-cases, nat_eq, string_eq,
  list_eq, option_eq, pair_eq,
}
use home_net_hub.Tsdb.Rollup.{Tiered, Run, after_turn, failed, drain, chunk_sec, max_chunks_per_run}

module _ {V : Type 0} (mark : Tiered V → ℕ) (taken : Run V → ℕ)
    (turn : Run V → ℕ → ℕ → Option (Run V)) where
  -- The four ways of a loop: at its target, out of chunks, stopped, and on with the next chunk.
  pub drain-cases :
      (P : Run V → Type 0) (n target : ℕ) (r : Run V)
      → (target ≤ mark r.db → P r)
      → (max_chunks_per_run ≤ taken r → P r)
      → (mark r.db < target
          → turn r (mark r.db) (min (mark r.db + chunk_sec) target) ≡ none
          → P (failed r))
      → ((r' : Run V)
          → mark r.db < target
          → taken r < max_chunks_per_run
          → turn r (mark r.db) (min (mark r.db + chunk_sec) target) ≡ some r'
          → P (drain mark taken turn n target r'))
      → P (drain mark taken turn (suc n) target r)
  unfolding drain after_turn
  drain-cases P n target r reached out stop step =
      let hi = min (mark r.db + chunk_sec) target in
      let body : Option (Run V) → Run V = after_turn (drain mark taken turn n target) r in
      let loop : Bool → Run V = λ b. elim b [ false ↦ r | true ↦ body (turn r (mark r.db) hi) ] in
      let more = ltb (taken r) max_chunks_per_run in
      elim (Bool-cases (ltb (mark r.db) target)) [
        | inr at ↦
            subst (λ b. P (loop (b && more))) (sym at) (reached (not_ltb→le (mark r.db) target at))
        | inl behind ↦
            let lt = ltb→lt (mark r.db) target behind in
            subst (λ b. P (loop (b && more))) (sym behind)
              (elim (Bool-cases more) [
                | inr full ↦
                    subst (λ b. P (loop b)) (sym full)
                      (out (not_ltb→le (taken r) max_chunks_per_run full))
                | inl room ↦
                    subst (λ b. P (loop b)) (sym room)
                      (elim (Option-cases (turn r (mark r.db) hi)) [
                        | inl gone ↦ subst (λ o. P (body o)) (sym gone) (stop lt gone)
                        | inr (r', took) ↦
                            subst (λ o. P (body o)) (sym took)
                              (step r' lt (ltb→lt (taken r) max_chunks_per_run room) took)
                      ])
              ])
      ]

  -- What a turn and a failure keep, a loop keeps.
  pub drain-Keeps :
      (P : Run V → Type 0) (target : ℕ)
      → ((r r' : Run V)
          → P r
          → mark r.db < target
          → turn r (mark r.db) (min (mark r.db + chunk_sec) target) ≡ some r'
          → P r')
      → ((r : Run V) → P r → P (failed r))
      → (n : ℕ) (r : Run V) → P r
      → P (drain mark taken turn n target r)
  unfolding drain
  drain-Keeps P target step stop zero r p = p
  drain-Keeps P target step stop (suc n) r p =
      drain-cases P n target r (λ at. p) (λ full. p) (λ lt gone. stop r p)
        (λ r' lt room took. drain-Keeps P target step stop n r' (step r r' p lt took))

  -- A loop takes no chunk too many.
  pub drain-taken :
      ((r r' : Run V) (lo hi : ℕ) → turn r lo hi ≡ some r' → taken r' ≡ taken r + 1)
      → ((r : Run V) → taken (failed r) ≡ taken r)
      → (n target : ℕ) (r : Run V) → taken r ≤ max_chunks_per_run
      → taken (drain mark taken turn n target r) ≤ max_chunks_per_run
  unfolding drain
  drain-taken counts same zero target r le = le
  drain-taken counts same (suc n) target r le =
      drain-cases (λ (x : Run V). taken x ≤ max_chunks_per_run) n target r (λ at. le) (λ full. le)
        (λ lt gone. ground (arith, same r, le))
        (λ r' lt room took.
          let one = counts r r' (mark r.db) (min (mark r.db + chunk_sec) target) took in
          drain-taken counts same n target r' (ground (arith, one, room)))

  -- A loop that has taken its chunks takes no more.
  drain-full :
      (k target : ℕ) (r : Run V)
      → max_chunks_per_run ≤ taken r
      → drain mark taken turn k target r ≡ r
  unfolding drain
  drain-full zero target r full = refl
  drain-full (suc k) target r full =
      let hi = min (mark r.db + chunk_sec) target in
      let loop : Bool → Run V = λ b. elim b [
        | false ↦ r
        | true ↦ after_turn (drain mark taken turn k target) r (turn r (mark r.db) hi)
      ] in
      let closed : (ltb (mark r.db) target && ltb (taken r) max_chunks_per_run) ≡ false =
        ground (arith, full) in
      subst (λ b. loop b ≡ r) (sym closed) refl

  -- With fuel for the chunks that the loop may still take, more fuel changes nothing, if every turn
  -- that goes on counts one chunk.
  pub drain-fuel :
      ((r r' : Run V) (lo hi : ℕ) → turn r lo hi ≡ some r' → taken r' ≡ taken r + 1)
      → (n m target : ℕ) (r : Run V) → max_chunks_per_run ≤ taken r + n
      → n ≤ m
      → drain mark taken turn m target r ≡ drain mark taken turn n target r
  unfolding drain after_turn
  drain-fuel counts zero m target r enough le = drain-full m target r (ground (arith, enough))
  drain-fuel counts (suc n) zero target r enough le = absurd (omega (arith, le))
  drain-fuel counts (suc n) (suc m) target r enough le =
      let hi = min (mark r.db + chunk_sec) target in
      let open_test = ltb (mark r.db) target && ltb (taken r) max_chunks_per_run in
      let body : ℕ → Option (Run V) → Run V = λ f. after_turn (drain mark taken turn f target) r in
      let loop : ℕ → Bool → Run V =
        λ f b. elim b [ false ↦ r | true ↦ body f (turn r (mark r.db) hi) ] in
      elim (Bool-cases open_test) [
        | inr e ↦ subst (λ b. loop m b ≡ loop n b) (sym e) refl
        | inl e ↦
            subst (λ b. loop m b ≡ loop n b) (sym e)
              (elim (Option-cases (turn r (mark r.db) hi)) [
                | inl gone ↦ subst (λ o. body m o ≡ body n o) (sym gone) refl
                | inr (r', took) ↦
                    let one = counts r r' (mark r.db) hi took in
                    subst (λ o. body m o ≡ body n o) (sym took)
                      (drain-fuel counts n m target r' (ground (arith, enough, one))
                        (omega (arith, le)))
              ])
      ]
