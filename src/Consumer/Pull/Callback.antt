-- ===== src/Consumer/Pull/Callback.antt =====
-- src/consumer/PullAPIWrapper.cpp, processPullResult, and DefaultMQPushConsumerImplCallback: what is done
-- with a broker's answer to a pull. `messages` is what MessageDecoder::decodes makes of the answer's
-- bytes, and sprintf's "%lld" is a parameter. The counters of ConsumerStat are left out.
pub mod Forwarded
use test.Prelude.{
  ℕ, ◌≡◌, ◌≢◌, ◌⊎◌, inl, inr, refl, arith, Bytes, Bool, true, false, Option, none, some, List, [],
  ◌∷◌, ◌++◌, ◌==◌, if◌then◌else◌, Bool-cases,
}
use test.Prelude.Int.{ℤ, pos, ltb_ℤ, eqb_ℤ}
use test.SortedMap.{lookup, insert}
use test.SortedMap.Keys.{bytes_order, same_bytes}
use test.Message.MessageExt.{MessageExt}
use test.Message.MessageQueue.{message_queue_order}
use test.Consumer.ProcessQueue.{ProcessQueue, put_message}
use test.Consumer.Rebalance.{PullRequest, contains}
use test.Consumer.Pull.{
  SubscriptionData, PushConsumer, PullStore, Pulling, update_pull_from_which_node,
  execute_pull_request_later, execute_pull_request_immediately, execute_task_later,
  pull_time_delay_mills_when_exception,
}

pub data PullStatus : Type 0 where
  found no_new_msg no_matched_msg offset_illegal : PullStatus

pub record PullResult : Type 0 where
  pub pull_status : PullStatus
  pub next_begin_offset : ℤ
  pub min_offset : ℤ
  pub max_offset : ℤ
  pub suggest_which_broker_id : ℤ
  pub messages : List MessageExt

-- MQClientAPIImpl::processPullResponse: the status of a response by its code, `none` for an exception.
abbrev pub pull_status_of : ℕ → Option PullStatus
pull_status_of code =
    if code == 0
    then some PullStatus.found
    else if code == 19
    then some PullStatus.no_new_msg
    else if code == 20
    then some PullStatus.no_matched_msg
    else if code == 21
    then some PullStatus.offset_illegal
    else none

abbrev pub property_tags : Bytes
property_tags = b'T' ∷ b'A' ∷ b'G' ∷ b'S' ∷ []

abbrev pub property_min_offset : Bytes
property_min_offset = b'M' ∷ b'I' ∷ b'N' ∷ b'_' ∷ b'O' ∷ b'F' ∷ b'F' ∷ b'S' ∷ b'E' ∷ b'T' ∷ []

abbrev pub property_max_offset : Bytes
property_max_offset = b'M' ∷ b'A' ∷ b'X' ∷ b'_' ∷ b'O' ∷ b'F' ∷ b'F' ∷ b'S' ∷ b'E' ∷ b'T' ∷ []

-- Message::getTags
abbrev pub get_tags : MessageExt → Bytes
get_tags msg = elim (lookup property_tags msg.properties) [ none ↦ [] | some tags ↦ tags ]

-- Whether the loop over the messages takes the message, for a set of tags that is not empty.
abbrev pub is_taken : List Bytes → MessageExt → Bool
is_taken tags_set msg =
    if same_bytes (get_tags msg) [] then false else contains (get_tags msg) tags_set

unfoldable pub filter_tags : List Bytes → List MessageExt → List MessageExt
filter_tags tags_set [] = []
filter_tags tags_set (msg ∷ msgs) =
    let rest = filter_tags tags_set msgs in if is_taken tags_set msg then msg ∷ rest else rest

abbrev pub filter_again : List Bytes → List MessageExt → List MessageExt
filter_again [] msgs = msgs
filter_again (tag ∷ tags) msgs = filter_tags (tag ∷ tags) msgs

module _ (sprintf_lld : ℤ → Bytes) where
  -- putProperty of the least and the greatest offset.
  abbrev pub with_offsets : PullResult → MessageExt → MessageExt
  with_offsets result msg = record msg {
    properties =
        insert property_max_offset (sprintf_lld result.max_offset)
          (insert property_min_offset (sprintf_lld result.min_offset) msg.properties);
  }

  abbrev pub all_with_offsets : PullResult → List MessageExt → List MessageExt
  all_with_offsets result [] = []
  all_with_offsets result (msg ∷ msgs) = with_offsets result msg ∷ all_with_offsets result msgs

  -- The msgFoundList of processPullResult; it is empty for the other statuses.
  unfoldable pub msg_found_list : SubscriptionData → PullResult → List MessageExt
  msg_found_list data' result = elim result.pull_status [
    | PullStatus.found ↦ all_with_offsets result (filter_again data'.tags_set result.messages)
    | _ ↦ []
  ]

  module _ {S : Type 0} (config : PushConsumer) (store : PullStore S) where
    -- What onSuccess leaves: the state, the object of the process queue, and the messages given to
    -- submitConsumeRequest with dispathToConsume.
    pub record Pulled : Type 0 where
      pub pulling : Pulling S
      pub process_queue : ProcessQueue
      pub submitted : Option (List MessageExt × Bool)

    -- correctTagsOffset
    unfoldable pub correct_tags_offset : ProcessQueue → PullRequest → Pulling S → Pulling S
    correct_tags_offset pq r s =
        if eqb_ℤ pq.msg_count (pos 0)
        then record s {
          offset_store = store.update_offset r.message_queue r.next_offset true s.offset_store;
        }
        else s

    abbrev pub by_status :
        PullStatus → List MessageExt → PullRequest → ProcessQueue → Pulling S → Pulled
    by_status PullStatus.found msgs r pq s =
        let p = put_message msgs pq in
        record {
          pulling =
              if ltb_ℤ (pos 0) config.pull_interval
              then execute_pull_request_later r config.pull_interval s
              else execute_pull_request_immediately r s;
          process_queue = p.1;
          submitted = some (msgs, p.0);
        }
    by_status PullStatus.no_new_msg msgs r pq s = record {
      pulling = execute_pull_request_immediately r (correct_tags_offset pq r s);
      process_queue = pq;
      submitted = none;
    }
    by_status PullStatus.no_matched_msg msgs r pq s = record {
      pulling = execute_pull_request_immediately r (correct_tags_offset pq r s);
      process_queue = pq;
      submitted = none;
    }
    by_status PullStatus.offset_illegal msgs r pq s = record {
      pulling = execute_task_later r (pos 10000) s;
      process_queue = record pq { droped = true };
      submitted = none;
    }

    -- onSuccess
    unfoldable pub on_success :
        SubscriptionData → PullResult → PullRequest → ProcessQueue → Pulling S → Pulled
    on_success data' result r pq s =
        by_status result.pull_status (msg_found_list data' result)
          (record r { next_offset = result.next_begin_offset }) pq
          (update_pull_from_which_node r.message_queue result.suggest_which_broker_id s)

-- onException
unfoldable pub on_exception : {S : Type 0} → PullRequest → Pulling S → Pulling S
on_exception r s = execute_pull_request_later r pull_time_delay_mills_when_exception s

-- ConsumerInvokeCallback::operationComplete: a response is its code and what processPullResponse reads from it;
-- NULL and an exception of processPullResponse end in onException.
unfoldable pub operation_complete :
    {S : Type 0}
    → (ℤ → Bytes)
    → PushConsumer
    → PullStore S
    → Option (ℕ × PullResult)
    → SubscriptionData
    → PullRequest
    → ProcessQueue
    → Pulling S
    → Pulling S
operation_complete sprintf_lld config store none data' r pq s = on_exception r s
operation_complete sprintf_lld config store (some (code, result)) data' r pq s =
    elim (pull_status_of code) [
      | none ↦ on_exception r s
      | some status ↦
          (on_success sprintf_lld config store data' (record result { pull_status = status }) r pq
            s).pulling
    ]
