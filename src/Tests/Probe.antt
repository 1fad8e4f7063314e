-- ===== src/Tests/Probe.antt =====
-- Runs of the load probe and of the collectors.
use enigma_behemoth.Prelude.{
  ◌==◌, ℕ, ◌+◌, ◌*◌, ◌/◌, ◌≡◌, refl, String, none, some, List, [], ◌∷◌, ◌++◌, true, false, eqb,
  if◌then◌else◌,
}
use enigma_behemoth.Prelude.Int.{pos}
use enigma_behemoth.Redis.Server.{plain}
use enigma_behemoth.LoadProbe.{Answer, transport_error, status, count_answer, verdict}
use enigma_behemoth.Api.{DamageRequest}
use enigma_behemoth.Api.Metrics.{Labels, same_labels, new_metrics, post_damage}
use enigma_behemoth.Api.Metrics.Counted.{labels_of, IsCounted, post_damage-IsCounted}
use enigma_behemoth.Writer
use enigma_behemoth.Tests.Data.{config, quiet, world}

abbrev ninety_nine : ℕ → ℕ
ninety_nine n = n * 99 / 100

abbrev answers : List Answer
answers =
    status 200 5000000
    ∷ transport_error "refused"
    ∷ status 409 90000000
    ∷ status 503 1000
    ∷ status 200 120000000
    ∷ []

-- Two of three are fast, and the index is 2.
slow : verdict ninety_nine answers ≡ false
unfolding verdict count_answer
slow = refl

-- Every request failed.
vacuous : verdict ninety_nine (transport_error "refused" ∷ status 500 1 ∷ []) ≡ true
unfolding verdict count_answer
vacuous = refl

abbrev posted : DamageRequest
posted = record { player_id = "bob"; boss_id = "b"; damage_amount = pos 40 }

abbrev texts : ℕ → String
texts n = if eqb n 200 then "OK" else "Service Unavailable"

post_damage-IsCounted_example :
    let (r, w, m) =
      post_damage plain texts
        (config 4)
        (quiet (Writer.answered none))
        7
        (some posted)
        world
        new_metrics in
    IsCounted (config 4) (quiet (Writer.answered none)) posted world r w new_metrics m
    × ((l : Labels)
        → m.requests l ≡ (
            if same_labels (labels_of texts r) l
            then new_metrics.requests l + 1
            else new_metrics.requests l))
    × ((route : String)
        → m.durations route ≡ (
            if "/damage" == route
            then new_metrics.durations route ++ 7 ∷ []
            else new_metrics.durations route))
post_damage-IsCounted_example =
    post_damage-IsCounted texts 7 new_metrics plain (config 4) (quiet (Writer.answered none)) posted
      world
