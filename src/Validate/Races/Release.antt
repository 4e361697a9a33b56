-- ===== src/Validate/Races/Release.antt =====
-- `_check_gsr_release` of tools/xut/validate.py.
use xilinx_unittests.Prelude.{
  ℕ, ◌≤◌, ◌==◌, ltb, ◌≡◌, refl, sym, subst, ◌↔◌, inl, inr, arith, Bool-cases, ==_iff, List, [], ◌∷◌,
  All,
}
use xilinx_unittests.Xvec.{Event}
use xilinx_unittests.Validate.{roc_width_ps, insert_time}
use xilinx_unittests.Validate.Races.{distance, times, release_errors, check_gsr_release}

abbrev pub IsClear : ℕ → ℕ → Type 0
IsClear sep t = sep ≤ distance t roc_width_ps

release_errors-none : (sep : ℕ) (ts : List ℕ) → (release_errors sep ts ≡ []) ↔ All (IsClear sep) ts
unfolding release_errors
release_errors-none sep [] = (λ h. tt, λ h. refl)
release_errors-none sep (t ∷ ts) =
    let later = release_errors-none sep ts in
    elim (Bool-cases (ltb (distance t roc_width_ps) sep)) [
      | inl q ↦ rw q (λ h. cc, λ h. absurd (ground (arith, h.0)))
      | inr q ↦ rw q (λ h. (ground arith, later.0 h), λ h. later.1 h.1)
    ]

All-insert_time_iff :
    (P : ℕ → Type 0) (t : ℕ) (ts : List ℕ) → All P (insert_time t ts) ↔ (P t × All P ts)
unfolding insert_time
All-insert_time_iff P t [] = (λ h. h, λ h. h)
All-insert_time_iff P t (s ∷ ts) =
    let later = All-insert_time_iff P t ts in
    elim (Bool-cases (t == s)) [
      | inl q ↦ rw q (λ h. (subst P (sym ((==_iff t s).0 q)) h.0, h), λ h. h.1)
      | inr q ↦ elim (Bool-cases (ltb t s)) [
        | inl r ↦ rw (q, r) (λ h. h, λ h. h)
        | inr r ↦
            rw (q, r)
              (λ h. ((later.0 h.1).0, (h.0, (later.0 h.1).1)), λ h. (h.1.0, later.1 (h.0, h.1.1)))
      ]
    ]

All-times_iff : (P : ℕ → Type 0) (es : List Event) → All P (times es) ↔ All (λ e. P e.t) es
unfolding times
All-times_iff P [] = (λ h. h, λ h. h)
All-times_iff P (e ∷ es) =
    let here = All-insert_time_iff P e.t (times es) in
    let later = All-times_iff P es in
    (λ h. ((here.0 h).0, later.0 (here.0 h).1), λ h. here.1 (h.0, later.1 h.1))

-- The rule finds nothing exactly where every event is at least the separation from the time at which
-- glbl releases GSR, on either side.
pub check_gsr_release_iff :
    (timed : List Event) (sep : ℕ)
    → (check_gsr_release timed sep ≡ []) ↔ All (λ e. sep ≤ distance e.t roc_width_ps) timed
unfolding check_gsr_release
check_gsr_release_iff timed sep =
    let errors = release_errors-none sep (times timed) in
    let each = All-times_iff (IsClear sep) timed in
    (λ h. each.0 (errors.0 h), λ h. errors.1 (each.1 h))
