-- ===== src/Scheduler/Tests.antt =====
-- The choice of `hwfq_dequeue` with one tenant that has one piece of work.
use hwfq_scheduler.Base.{◌≡◌, refl, ap, subst, [], ◌∷◌, arith, Has, inl, inr}
use hwfq_scheduler.Types.{UserData, tenant, flow, Session}
use hwfq_scheduler.Calendar.{
  bin_list_insert, insert_sorted, insert_session, calculate_group_index_from_interval,
  calculate_bin_index_from_finish_time,
}
use hwfq_scheduler.Calendar.Contents.{sessions}
use hwfq_scheduler.Calendar.Insert.{stored}
use hwfq_scheduler.Chunked.{get}
use hwfq_scheduler.Group.{find_entry}
use hwfq_scheduler.Group.Queue.{
  enqueue, enqueue_at, enqueue_for, accept, new_session, service_interval_of, scaled_work,
  start_time_of, finish_time_of,
}
use hwfq_scheduler.Group.Sample.{fresh, first_session, queued, queued-lem, one_held}
use hwfq_scheduler.Scheduler.Serve.{hwfq_dequeue}
use hwfq_scheduler.Scheduler.Sample.{context, customer, busy, around}
use hwfq_scheduler.Scheduler.Choice.{HasQueue, IsServable, Chosen, hwfq_dequeue_choice}

queued-HasQueue : (u : UserData) → HasQueue (queued u)
queued-HasQueue u = record {
  ready = (queued-lem u).1;
  work = omega (arith, one_held u);
  small = omega (arith, one_held u);
}

held : (u : UserData) → sessions (queued u).calendar ≡ stored fresh.calendar (first_session u) ∷ []
unfolding enqueue enqueue_at find_entry get enqueue_for accept insert_session new_session
    calculate_group_index_from_interval service_interval_of scaled_work
    calculate_bin_index_from_finish_time finish_time_of start_time_of bin_list_insert insert_sorted
held u = refl

carries : (u : UserData) (x : Session) → Has x (sessions (queued u).calendar) → x.user_data ≡ u
unfolding new_session
carries u x h = one (subst (Has x) (held u) h)
  where
    one : Has x (stored fresh.calendar (first_session u) ∷ []) → x.user_data ≡ u
    one (inl e) = ap (λ (s : Session). s.user_data) e
    one (inr m) = absurd m

servable : (x : Session) → Has x (sessions busy.system_scheduler.calendar) → IsServable busy x
servable x h = record {
  tenant_id = 0;
  t = customer;
  points = carries (tenant 0) x h;
  there = refl;
  queue = queued-HasQueue (flow context);
  contexts = λ y m. (context, carries (flow context) y m, refl);
}

hwfq_dequeue_choice_example : Chosen busy (hwfq_dequeue busy around)
hwfq_dequeue_choice_example =
    hwfq_dequeue_choice busy around 202 (queued-HasQueue (tenant 0)) servable refl
