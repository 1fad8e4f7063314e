-- ===== src/Tests/Crews.antt =====
-- A run of the reconciler up to the end of Stop.
use enigma_behemoth.Prelude.{◌≡◌, refl, String, [], true}
use enigma_behemoth.Recovery.Reconcile.{mark, send, free}
use enigma_behemoth.Recovery.Reconcile.Coalesce.{count}
use enigma_behemoth.Recovery.Reconcile.Stop.{
  Crew, hired, post, receive, begin_rebuild, marks, posts, receives, frees, finishes, stops, leaves,
  CrewSteps, here, next,
}
use enigma_behemoth.Recovery.Reconcile.Stop.Emptied.{emptied}

-- A boss is enqueued, Stop closes the channel, one worker rebuilds the boss, and both workers end.
abbrev marked : Crew
marked = record hired { queue = mark "b" hired.queue }

abbrev posted : Crew
posted = post "b" marked

abbrev shut : Crew
shut = record posted { is_closed = true }

abbrev asleep : Crew
asleep = receive "b" [] 1 shut

abbrev at_work : Crew
at_work = begin_rebuild "b" asleep

abbrev rested : Crew
rested = record at_work { busy = 0; waiting = 2 }

abbrev one_ended : Crew
one_ended = record rested { waiting = 1; ended = 1 }

abbrev both_ended : Crew
both_ended = record one_ended { waiting = 0; ended = 2 }

posts_run : CrewSteps hired shut
unfolding mark
posts_run =
    next _ _ _ (next _ _ _ (next _ _ _ (here hired) (marks "b" hired)) (posts "b" marked refl refl))
      (stops posted)

works_run : CrewSteps hired rested
unfolding mark send free post receive begin_rebuild
works_run =
    next _ _ _
      (next _ _ _ (next _ _ _ posts_run (receives "b" [] 1 shut refl refl)) (frees "b" asleep refl))
      (finishes 0 at_work refl)

ends_run : CrewSteps hired both_ended
unfolding mark send free post receive begin_rebuild
ends_run =
    next _ _ _ (next _ _ _ works_run (leaves 1 rested refl refl refl))
      (leaves 0 one_ended refl refl refl)

emptied_example :
    (both_ended.is_closed ≡ true)
    × ((both_ended.queue).ch ≡ [])
    × ((both_ended.queue).sleeping ≡ [])
    × (both_ended.busy ≡ 0)
    × ((id : String) → count id (both_ended.queue).rebuilding ≡ count id both_ended.sent)
emptied_example = emptied both_ended ends_run refl
