-- ===== src/Exocom/Collaboration/Transitions/Tests.antt =====
-- A task that is taken, and one that is done.
use pi_persona.Base.{◌≡◌, refl, some, [], ◌∷◌, codes, text_eq, ok}
use pi_persona.Exocom.Frames.{TaskCreate, TaskTake, TaskFinish, done, Publish, task_take, publish}
use pi_persona.Exocom.Collaboration.{
  CollaborationTask, CollaborationState, new_task, find_task, replace_task, is_open, status_of,
  collaboration_status,
}
use pi_persona.Exocom.Collaboration.Transitions.{
  apply_collaboration_event, transition, is_plain, checked, bounded, next_state, on_task, act,
  take_task, update_task,
}
use pi_persona.Exocom.Collaboration.Transitions.Lifecycle.{
  AtMostStep, IsOver, apply_collaboration_event-AtMostStep, apply_collaboration_event-IsOver,
}
use pi_persona.Exocom.Samples.{sample_runtime, sample_head}

abbrev created : TaskCreate
created = record {
  head = sample_head (codes "a") (codes "m1");
  description = codes "d";
  write_set = [];
}

abbrev pickup : TaskTake
pickup = record { head = sample_head (codes "b") (codes "m2"); task_id = codes "m1" }

abbrev ending : TaskFinish
ending = record {
  head = sample_head (codes "b") (codes "m3");
  task_id = codes "m1";
  outcome = done;
  note = codes "n";
}

abbrev paper : Publish
paper = record {
  head = sample_head (codes "c") (codes "m4");
  task_id = codes "m1";
  title = codes "t";
  excerpt = codes "e";
}

abbrev new : CollaborationTask
new = new_task created

abbrev held : CollaborationTask
held = record new { taken = some pickup }

abbrev over : CollaborationTask
over = record held { finished = some ending }

abbrev state : CollaborationTask → CollaborationState
state t = record { tasks = t ∷ []; offers = []; evidence = [] }

taking : apply_collaboration_event sample_runtime (state new) (task_take pickup) ≡ ok (state held)
unfolding apply_collaboration_event transition is_plain checked bounded next_state on_task act
    take_task update_task replace_task is_open status_of find_task text_eq
taking = refl

found_new : find_task (codes "k") (state new).tasks ≡ some new
unfolding find_task text_eq
found_new = refl

apply_collaboration_event-AtMostStep_example :
    (t' : CollaborationTask) × (find_task (codes "k") (state held).tasks ≡ some t')
    × AtMostStep (task_take pickup) new t'
apply_collaboration_event-AtMostStep_example =
    apply_collaboration_event-AtMostStep sample_runtime (state new) (task_take pickup) (state held)
      (codes "k") new taking found_new

abbrev published : CollaborationState
published = record { tasks = over ∷ []; offers = []; evidence = paper ∷ [] }

publishing : apply_collaboration_event sample_runtime (state over) (publish paper) ≡ ok published
unfolding apply_collaboration_event transition is_plain checked bounded next_state on_task act
    find_task text_eq
publishing = refl

found_over : find_task (codes "k") (state over).tasks ≡ some over
unfolding find_task text_eq
found_over = refl

over-IsOver : IsOver (collaboration_status over)
unfolding status_of
over-IsOver = tt

apply_collaboration_event-IsOver_example : find_task (codes "k") published.tasks ≡ some over
apply_collaboration_event-IsOver_example =
    apply_collaboration_event-IsOver sample_runtime (state over) (publish paper) published
      (codes "k") over publishing found_over over-IsOver
