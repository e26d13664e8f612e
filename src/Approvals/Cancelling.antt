-- ===== src/Approvals/Cancelling.antt =====
-- The loop of `cancel_open_for_run` in app/application/approval_service.py.
use ai_agents_carrier.Base.{
  String, ℕ, zero, suc, ◌<◌, Bool, true, false, none, some, List, [], ◌∷◌, ◌++◌, ◌≡◌, refl, sym,
  subst, inl, inr, ◌∙◌, ap, all, all-append, length, are_distinct, truthy, ◌⊎◌, ◌&&◌, not, Memᴰ,
  eq_of_some, one_value, find?, contains, str_eq, eq_iff, arith, Bool-cases, Option-cases,
}
use ai_agents_carrier.Approvals.Case.{cancelled, ApprovalCase, same_status, is_pending}
use ai_agents_carrier.Approvals.Backend.{Backend, put, get, is_open_for}
use ai_agents_carrier.Approvals.Deciding.{abandon, find_open_case, cancel_from, cancel_open_for_run}
use ai_agents_carrier.Approvals.Once.{close_as-IsClosing}
use ai_agents_carrier.Approvals.Found.{
  ids, str_eq-flip, open-parts, find_open-none, find_open-some, find-mem, mem-put, mem-put_other,
  abandon-refused,
}
use ai_agents_carrier.Approvals.Remaining.{free-ids, ids-put, left, close_as-left}

-- a case that the loop has closed
abbrev pub is_cancelled_for : String → ApprovalCase → Bool
is_cancelled_for run_id case = same_status case.status cancelled && str_eq case.run_id run_id

-- The newest case of the run that is still open was claimed before the loop began.
pub record IsRefused (run_id : String) (start last : Backend) : Type 0 where
  pub case : ApprovalCase
  pub found : find_open_case run_id none last ≡ some case
  pub claimed : contains start.claimed case.id ≡ true

-- How the loop ends, from the backend in which it starts.
pub record IsDrained (run_id : String) (start : Backend) (result : List ApprovalCase × Backend)
    : Type 0 where
  pub closed : all (is_cancelled_for run_id) result.0 ≡ true
  pub drained :
      (all (λ c. not (is_open_for run_id none c)) result.1.cases ≡ true)
      ⊎ IsRefused run_id start result.1
  pub others :
      (c : ApprovalCase)
      → Memᴰ c start.cases
      → is_open_for run_id none c ≡ false
      → Memᴰ c result.1.cases

module _ (now : ℕ) (run_id reason : String) (start : Backend) (set : truthy run_id ≡ true) where
  -- what holds between two rounds
  record IsUnder (closed : List ApprovalCase) (backend : Backend) : Type 0 where
    cancelled_all : all (is_cancelled_for run_id) closed ≡ true
    distinct : are_distinct (ids backend.cases) ≡ true
    claims :
        (c : ApprovalCase)
        → Memᴰ c backend.cases
        → is_pending c ≡ true
        → contains backend.claimed c.id ≡ true
        → contains start.claimed c.id ≡ true
    kept :
        (c : ApprovalCase)
        → Memᴰ c start.cases
        → is_open_for run_id none c ≡ false
        → Memᴰ c backend.cases

  Drains : ℕ → List ApprovalCase → Backend → Type 0
  Drains fuel closed backend =
      (result : List ApprovalCase × Backend) × (cancel_from fuel now run_id reason closed backend
        ≡ some result)
      × IsDrained run_id start result

  -- a round that closes a case
  record IsRound (case : ApprovalCase) (backend : Backend) (done : ApprovalCase × Backend)
      : Type 0 where
    named : done.0.id ≡ case.id
    of_run : done.0.run_id ≡ case.run_id
    ended : done.0.status ≡ cancelled
    cases : done.1.cases ≡ put done.0 backend.cases
    claimed : done.1.claimed ≡ case.id ∷ backend.claimed

  abandon-IsRound :
      (case : ApprovalCase) (backend : Backend) {done : ApprovalCase × Backend}
      → are_distinct (ids backend.cases) ≡ true
      → Memᴰ case backend.cases
      → abandon now reason case.id backend ≡ some done
      → IsRound case backend done
  unfolding abandon get
  abandon-IsRound case backend distinct stored h =
      let closing = close_as-IsClosing _ case.id backend h in
      let same : closing.case ≡ case =
        eq_of_some (sym closing.found ∙ find-mem backend.cases distinct stored) in
      record {
        named = ap (λ c. c.id) closing.written ∙ ap (λ c. c.id) same;
        of_run = ap (λ c. c.run_id) closing.written ∙ ap (λ c. c.run_id) same;
        ended = ap (λ c. c.status) closing.written;
        cases = rw closing.written closing.cases;
        claimed = closing.claimed;
      }

  round-distinct :
      (case : ApprovalCase) (backend : Backend) (done : ApprovalCase × Backend)
      → are_distinct (ids backend.cases) ≡ true
      → Memᴰ case backend.cases
      → IsRound case backend done
      → are_distinct (ids done.1.cases) ≡ true
  round-distinct case backend done distinct stored round =
      let found : find? (λ c. str_eq c.id done.0.id) backend.cases ≡ some case =
        subst (λ i. find? (λ c. str_eq c.id i) backend.cases ≡ some case) (sym round.named)
          (find-mem backend.cases distinct stored) in
      rw round.cases (rw ((ids-put done.0 backend.cases found).0) distinct)

  round-claims :
      (closed : List ApprovalCase) (case : ApprovalCase) (backend : Backend)
      (done : ApprovalCase × Backend)
      → IsUnder closed backend
      → IsRound case backend done
      → (c : ApprovalCase) → Memᴰ c done.1.cases
      → is_pending c ≡ true
      → contains done.1.claimed c.id ≡ true
      → contains start.claimed c.id ≡ true
  round-claims closed case backend done under round c m pending claimed =
      elim (mem-put done.0 backend.cases under.distinct (rw round.cases at m)) [
        | inl e ↦
            let over : is_pending c ≡ false = rw e (rw round.ended refl) in
            absurd (one_value pending over)
        | inr (stored, other) ↦
            let apart : str_eq case.id c.id ≡ false =
              str_eq-flip c.id case.id (subst (λ i. str_eq c.id i ≡ false) round.named other) in
            under.claims c stored pending (rw apart at (rw round.claimed at claimed))
      ]

  round-kept :
      (closed : List ApprovalCase) (case : ApprovalCase) (backend : Backend)
      (done : ApprovalCase × Backend)
      → IsUnder closed backend
      → Memᴰ case backend.cases
      → is_open_for run_id none case ≡ true
      → IsRound case backend done
      → (c : ApprovalCase) → Memᴰ c start.cases
      → is_open_for run_id none c ≡ false
      → Memᴰ c done.1.cases
  round-kept closed case backend done under stored open_case round c m over =
      let here = under.kept c m over in
      rw round.cases (
        mem-put_other done.0 backend.cases
          (elim (Bool-cases (str_eq c.id done.0.id)) [
            | inr f ↦ f
            | inl t ↦
                let id_of_case : c.id ≡ case.id = (eq_iff c.id done.0.id).0 t ∙ round.named in
                let same : c ≡ case = eq_of_some (
                  sym (find-mem backend.cases under.distinct here)
                  ∙ subst (λ i. find? (λ x. str_eq x.id i) backend.cases ≡ some case)
                      (sym id_of_case) (find-mem backend.cases under.distinct stored)) in
                absurd
                  (one_value open_case (subst (λ x. is_open_for run_id none x ≡ false) same over))
          ])
          here)

  round-IsUnder :
      (closed : List ApprovalCase) (backend : Backend) (case : ApprovalCase)
      {done : ApprovalCase × Backend}
      → IsUnder closed backend
      → Memᴰ case backend.cases
      → is_open_for run_id none case ≡ true
      → abandon now reason case.id backend ≡ some done
      → IsUnder (closed ++ (done.0 ∷ [])) done.1
  round-IsUnder closed backend case {done} under stored open_case h =
      let round = abandon-IsRound case backend under.distinct stored h in
      let of_run = (open-parts run_id case open_case).0 in
      record {
        cancelled_all =
            rw (all-append (is_cancelled_for run_id) closed (done.0 ∷ []))
              (rw under.cancelled_all (rw round.ended (rw round.of_run (rw of_run refl))));
        distinct = round-distinct case backend done under.distinct stored round;
        claims = round-claims closed case backend done under round;
        kept = round-kept closed case backend done under stored open_case round;
      }

  cancel_from-Drains :
      (fuel : ℕ) (closed : List ApprovalCase) (backend : Backend)
      → IsUnder closed backend
      → left backend < fuel
      → Drains fuel closed backend
  unfolding cancel_from Drains abandon get
  cancel_from-Drains zero closed backend under h = absurd (omega (arith, h))
  cancel_from-Drains (suc fuel) closed backend under h =
      elim (Option-cases (find_open_case run_id none backend)) [
        | inl n ↦ (
          (closed, backend),
          rw (n, cancel_from) refl,
          record {
            closed = under.cancelled_all;
            drained = inl (find_open-none run_id backend set n);
            others = under.kept;
          },
        )
        | inr (case, e) ↦
            let (stored, open_case) = find_open-some run_id backend set e in
            elim (Option-cases (abandon now reason case.id backend)) [
              | inl m ↦
                  let pending = (open-parts run_id case open_case).1 in
                  let refused = under.claims case stored pending (
                    abandon-refused now reason backend
                      (find-mem backend.cases under.distinct stored) pending m) in
                  (
                    (closed, backend),
                    rw (e, cancel_from) (rw m refl),
                    record {
                      closed = under.cancelled_all;
                      drained = inr record { case = case; found = e; claimed = refused };
                      others = under.kept;
                    },
                  )
              | inr (done, d) ↦
                  let fewer = close_as-left _ case.id backend (λ c. refl) d in
                  let later =
                    cancel_from-Drains fuel (closed ++ (done.0 ∷ [])) done.1
                      (round-IsUnder closed backend case under stored open_case d)
                      (omega (arith, h, fewer)) in
                  (later.0, rw (e, cancel_from) (rw d later.1), later.2)
            ]
      ]

-- `cancel_open_for_run` ends, where the ids of the cases are distinct and the run's id is no empty text. Every
-- case that it gives is a case of the run, cancelled. Then no case of the run is open any more, or the
-- newest one that is was claimed by somebody else before the loop began. The cases that were not open cases
-- of the run are still stored as they were.
pub cancel_open_for_run_ends :
    (now : ℕ) (run_id reason : String) (backend : Backend)
    → truthy run_id ≡ true
    → are_distinct (ids backend.cases) ≡ true
    → (result : List ApprovalCase × Backend) × (cancel_open_for_run now run_id reason backend
        ≡ some result)
      × IsDrained run_id backend result
unfolding cancel_open_for_run left Drains
cancel_open_for_run_ends now run_id reason backend set distinct =
    cancel_from-Drains now run_id reason backend set (suc (length backend.cases)) [] backend
      record {
        cancelled_all = refl;
        distinct = distinct;
        claims = λ c m pending claimed. claimed;
        kept = λ c m over. m;
      }
      (omega (arith, free-ids backend.claimed backend.cases))
