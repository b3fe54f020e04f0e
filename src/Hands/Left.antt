-- ===== src/Hands/Left.antt =====
-- client/src/components/room/stage-panel.tsx and listener-panel.tsx: a raised hand when its person is
-- taken on stage from the other listeners.
use wave_cast.Common.{true, false, ◌≡◌, refl, ◌∙◌, none, has, arith, eq_refl}
use wave_cast.Hands.{raise_hands_list}
use wave_cast.Stage.{Stage, on_stage_ids, add_speaker_to_stage}
use wave_cast.Stage.Invite.{listener_entry, select_entry}
use wave_cast.Stage.Laws.{has-add_speaker_to_stage, queued, queued_on_stage}
use wave_cast.Types.{Person}

keeps_store :
    (listener : Person) (st : Stage)
    → (select_entry (listener_entry listener) st).0.store ≡ st.store
unfolding select_entry add_speaker_to_stage listener_entry
keeps_store listener st = ground arith

select_entry-stands :
    (listener : Person) (st : Stage)
    → has listener.id (on_stage_ids (select_entry (listener_entry listener) st).0) ≡ true
unfolding select_entry listener_entry
select_entry-stands listener st =
    has-add_speaker_to_stage listener none st listener.id ∙ ground (arith, eq_refl listener.id)

-- Whoever is taken on stage from the other listeners of the menu stands there, and all hands stay
-- raised in the listener panel, that person's own as well, while the menu offers no request of that
-- person any more.
pub select_entry-raise_hands_list :
    (listener : Person) (st : Stage)
    → (has listener.id (on_stage_ids (select_entry (listener_entry listener) st).0) ≡ true)
      × (raise_hands_list (select_entry (listener_entry listener) st).0.store
          ≡ raise_hands_list st.store)
      × (queued listener.id (select_entry (listener_entry listener) st).0 ≡ false)
select_entry-raise_hands_list listener st =
    let stands = select_entry-stands listener st in
    (
      stands,
      rw (keeps_store listener st) refl,
      queued_on_stage listener.id (select_entry (listener_entry listener) st).0 stands,
    )
