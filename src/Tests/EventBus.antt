-- ===== src/Tests/EventBus.antt =====
-- The bus with texts for events, and handlers that remember what they are given.
use data_nexus.Prelude.{
  arith, ℕ, ◌+◌, String, true, false, ◌≡◌, refl, List, [], ◌∷◌, ◌++◌, zero, suc, nat_eq,
}
use data_nexus.Prelude.Dict.{lookup}
use data_nexus.Config.{default_settings}
use data_nexus.EventBus.Log.{
  EventBus, Message, StoredEvent, get_dlq, get_events, pause, prune_expired, publish, resume,
  topic_depth, topic_log,
}
use data_nexus.EventBus.Delivery.{Handler, Subscription, deliver, new_subscription, poll}
use data_nexus.EventBus.Consumption.{feed, poll_in_order, poll_times}
use data_nexus.EventBus.Gaps.{IsOpen, poll-prune_skips, publish-resume_waits, publish_all}
use data_nexus.EventBus.Numbering.{IsTopicLog, publish-IsTopicLog}
use data_nexus.EventBus.Retries.{answer, deliver_dead_letter, state_after}

abbrev stored : ℕ → String → StoredEvent String
stored n e = record { offset = n; topic = "t"; partition_key = "k"; event = e; emitted_ts = n }

abbrev bus : EventBus String
bus = record {
  topics = ("t", stored 0 "a" ∷ stored 1 "b" ∷ []) ∷ [];
  next_offset = ("t", 2) ∷ [];
  dlq = [];
  bus_available = true;
  pending = [];
}

abbrev message : Message String
message = record { topic = "t"; event = "c"; partition_key = "k" }

abbrev reader : Handler String (List String)
reader e h = (true, h ++ e ∷ [])

abbrev broken : Handler String ℕ
broken e n = (false, n + 1)

bus-IsTopicLog : IsTopicLog 5 "t" bus
unfolding lookup
bus-IsTopicLog = record {
  start = 0;
  numbered = (refl, (refl, tt));
  ends = refl;
  ascending = (omega arith, (omega arith, tt));
  past = (omega arith, (omega arith, tt));
}

abbrev open_bus : IsOpen bus
open_bus = record { available = refl; idle = refl }

poll_in_order_example :
    poll_times "t" reader (topic_depth "t" bus) (new_subscription "g") bus [] ≡ (
      record (new_subscription "g") { offset = topic_depth "t" bus },
      bus,
      feed reader (topic_log "t" bus) [],
    )
poll_in_order_example = poll_in_order "t" reader bus (λ e h. refl) "g" []

broken-answer : (n k : ℕ) → answer broken "a" n k ≡ false
unfolding state_after
broken-answer zero k = refl
broken-answer (suc n) k = broken-answer n (k + 1)

deliver_dead_letter_example :
    let (b', h') = deliver "t" broken (stored 0 "a") bus 0 in
    (get_dlq "t" b' ≡ get_dlq "t" bus ++ "a" ∷ [])
    × (b'.topics ≡ bus.topics)
    × (b'.next_offset ≡ bus.next_offset)
    × (h' ≡ state_after broken "a" 5 0)
deliver_dead_letter_example =
    deliver_dead_letter "t" broken (stored 0 "a") bus 0 (λ n low. broken-answer n 0)

publish-IsTopicLog_example : IsTopicLog 9 "t" (publish 9 message bus)
publish-IsTopicLog_example = publish-IsTopicLog 5 9 message "t" bus (omega arith) bus-IsTopicLog

abbrev subscription : Subscription
subscription = record { group_id = "g"; offset = 2; paused = false }

poll-prune_skips_example :
    let b' = publish_all 700000 (message ∷ []) (prune_expired default_settings 700000 bus) in
    (topic_depth "t" b' ≡ 1) × (poll "t" reader subscription b' [] ≡ (subscription, b', []))
unfolding topic_depth lookup
poll-prune_skips_example =
    poll-prune_skips default_settings 700000 700000 "t" reader subscription (message ∷ []) bus []
      open_bus refl (omega arith, (omega arith, tt)) (refl, tt) (omega arith)

publish-resume_waits_example :
    let resumed = resume (publish 5 message (pause bus)) in
    (get_events "t" resumed ≡ get_events "t" bus)
    × (get_events "t" (publish 6 (record { topic = "t"; event = "d"; partition_key = "k" }) resumed)
        ≡ get_events "t" bus ++ "d" ∷ "c" ∷ [])
publish-resume_waits_example = publish-resume_waits 5 6 "t" "k" "k" "c" "d" bus refl
