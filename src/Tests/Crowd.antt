-- ===== src/Tests/Crowd.antt =====
-- A run of the workers of the load probe.
use enigma_behemoth.Prelude.{ℕ, ◌*◌, ◌/◌, ◌≤◌, ◌≡◌, refl, String, List, [], ◌∷◌, ◌++◌, arith}
use enigma_behemoth.Text.{codes, print_int}
use enigma_behemoth.LoadProbe.{status, transport_error}
use enigma_behemoth.LoadProbe.Workers.{
  Probe, settings, start_workers, new_workers, request_body, PostOutcome, responded, failed,
  answer_of, take_answer, passes, posts, answers, Runs, here, next, AllGone,
}
use enigma_behemoth.LoadProbe.Workers.Ends.{Runs-can_end}
use enigma_behemoth.LoadProbe.Workers.Reported.{IsReported, Runs-trans, Runs-IsReported}

abbrev unset : String → String
unset k = ""

abbrev quote : String → List ℕ
quote s = codes "\"" ++ codes s ++ codes "\""

-- The service answers with 200, or not at all.
abbrev May : List ℕ → PostOutcome → Type 0
May body (failed text) = Unit
May body (responded code) = code ≡ 200

abbrev index : ℕ → ℕ → ℕ
index m n = m * n / 1000

abbrev rate : ℕ → ℕ → ℕ
rate n time = n * 1000000000 / time

body :
    request_body quote 7 "boss-1"
    ≡ codes "{\"player_id\":\"p-7\",\"boss_id\":\"boss-1\",\"damage_amount\":1}"
unfolding request_body print_int
body = refl

-- One worker posts and is answered after 5 ms; it posts again, and its call fails.
abbrev begun : Probe
begun = start_workers (settings unset) 0

abbrev IsRun : Probe → Type 0
IsRun = Runs quote May (settings unset).boss begun

later : 0 ≤ 5000000
later = omega arith

some_run : (p : Probe) × IsRun p × (p.answers ≡ status 200 5000000 ∷ transport_error "EOF" ∷ [])
unfolding start_workers new_workers settings answer_of take_answer
some_run =
    let one = next _ _ _ (here begun) (posts [] (new_workers 199) _ 7 _ refl refl refl refl) in
    let two = next _ _ _ one (passes _ 5000000 later) in
    let three =
      next _ _ _ two (answers [] (new_workers 199) _ _ _ (responded 200) _ refl refl refl) in
    let four = next _ _ _ three (posts [] (new_workers 199) _ 8 _ refl refl refl refl) in
    (_, next _ _ _ four (answers [] (new_workers 199) _ _ _ (failed "EOF") _ refl refl tt), refl)

whole_run : (p : Probe) × Runs quote May (settings unset).boss some_run.0 p × AllGone p.workers
whole_run = Runs-can_end quote May (settings unset).boss (λ b. (failed "EOF", tt)) some_run.0

Runs-IsReported_example : IsReported index rate (settings unset) whole_run.0
Runs-IsReported_example =
    Runs-IsReported index rate unset 0 quote May whole_run.0 (Runs-trans some_run.1 whole_run.1)
      whole_run.2
