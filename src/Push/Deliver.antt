-- ===== src/Push/Deliver.antt =====
-- `_deliver_round` and `_send_one` of server/push/pipeline.py. The provider's answers, the copy in
-- the recipient's language and the order of the rows are parameters: what is proved holds for any.
pub mod Rows
pub mod Rounds
pub mod Done
use tigerduck_backend.Prelude.{
  ℕ, zero, suc, ◌+◌, ◌≡◌, Bool, true, false, ◌&&◌, ◌||◌, not, Option, none, some, List, [], ◌∷◌,
  map, String, leb, ltb, ◌==◌, str_eq, if◌then◌else◌, get_or, count_if,
}
use tigerduck_backend.Push.Job.{
  JobStatus, DeliveryStatus, TokenStatus, invalidated, Payload, PushJob, Delivery, Token,
  is_pending, is_sent, is_failed, is_active,
}
use tigerduck_backend.Push.Provider.{SendResult, codes, is_unregistered}

-- What the pipeline asks of the code around it.
pub record Outside : Type 0 where
  -- the reauth and reminder copy, built again for the recipient
  pub localized : PushJob → Delivery → Payload
  -- one send; an exception of the sender is `none` with its text
  pub send : ℕ → PushJob → Payload → Delivery → Token → Option SendResult × String
  pub retry_round_delay : ℕ

-- The code points of `str.isspace`, which `strip` removes.
abbrev pub is_space : ℕ → Bool
is_space c =
    c == 32
    || ((leb 9 c && leb c 13)
        || ((leb 28 c && leb c 31)
            || (c == 133
                || (c == 160
                    || (c == 5760
                        || ((leb 8192 c && leb c 8202)
                            || (c == 8232
                                || (c == 8233 || (c == 8239 || (c == 8287 || c == 12288))))))))))

-- `str(payload.get(key) or "").strip()` is not empty
abbrev pub has_text : List ℕ → Bool
has_text [] = false
has_text (c ∷ cs) = not (is_space c) || has_text cs

unfoldable pub has_copy : Payload → Bool
has_copy p = has_text (codes (get_or p.title "")) && has_text (codes (get_or p.body ""))

abbrev pub is_reauth : PushJob → Bool
is_reauth job = str_eq job.scenario "reauth_required"

-- The jobs whose copy is resolved for the recipient.
abbrev pub rebuilds_copy : PushJob → Bool
rebuilds_copy job =
    is_reauth job || (str_eq job.channel "assignment" || str_eq job.channel "course")

abbrev pub Tokens : Type 0
Tokens = ℕ → Option Token

abbrev pub set_token : ℕ → Token → Tokens → Tokens
set_token i t tokens j = if j == i then some t else tokens j

abbrev pub failed_send : String → SendResult
failed_send error = record {
  success = false;
  status = "exception";
  description = some error;
  notification_id = none;
}

-- The branch on the result of a send. `delivery` has its attempt counted.
unfoldable pub record_result :
    Outside → ℕ → ℕ → Token → SendResult → Delivery → Tokens → Delivery × Tokens
record_result out now token_id token result delivery tokens =
    if result.success
    then (
      record delivery {
        status = DeliveryStatus.sent;
        sent_at = some now;
        provider_message_id = result.notification_id;
      },
      set_token token_id (record token { last_success_at = some now }) tokens,
    )
    else (let failed_token = record token {
      last_failure_at = some now;
      last_failure_code = some result.status;
    } in
        if is_unregistered (some result.status) result.description
        then (
          record delivery {
            status = DeliveryStatus.failed;
            failure_code = some "unregistered";
            failure_message = result.description;
          },
          set_token token_id (record failed_token { status = invalidated }) tokens,
        )
        else (
          let coded = record delivery {
            failure_code = some result.status;
            failure_message = result.description;
          } in
              if leb coded.max_attempts coded.attempts
              then record coded { status = DeliveryStatus.failed }
              else record coded { next_retry_at = now + out.retry_round_delay },
          set_token token_id failed_token tokens,
        ))

-- `if token is None or token.status != active`
abbrev pub usable : Option Token → Option Token
usable none = none
usable (some t) = if is_active t.status then some t else none

abbrev pub lookup_token : Option ℕ → Tokens → Option (ℕ × Token)
lookup_token none tokens = none
lookup_token (some i) tokens = elim (usable (tokens i)) [ none ↦ none | some t ↦ some (i, t) ]

abbrev pub skipped : String → Delivery → Delivery
skipped code delivery = record delivery {
  status = DeliveryStatus.skipped;
  failure_code = some code;
}

abbrev pub counted : Delivery → Delivery
counted delivery = record delivery { attempts = delivery.attempts + 1 }

abbrev pub result_of : Option SendResult × String → SendResult
result_of (none, error) = failed_send error
result_of (some r, _) = r

abbrev pub payload_for : Outside → PushJob → Delivery → Payload
payload_for out job delivery = if rebuilds_copy job then out.localized job delivery else job.payload

unfoldable pub send_with :
    Outside → ℕ → PushJob → Delivery → Tokens → Option (ℕ × Token) → Delivery × Tokens
unfolding record_result
send_with out now job delivery tokens none = (skipped "token_gone" delivery, tokens)
send_with out now job delivery tokens (some (token_id, token)) =
    let payload = payload_for out job delivery in
    if rebuilds_copy job && not (has_copy payload)
    then (skipped "empty_copy" delivery, tokens)
    else record_result out now token_id token
        (result_of (out.send now job payload (counted delivery) token)) (counted delivery) tokens

unfoldable pub send_one : Outside → ℕ → PushJob → Delivery → Tokens → Delivery × Tokens
unfolding send_with
send_one out now job delivery tokens =
    send_with out now job delivery tokens (lookup_token delivery.push_token_id tokens)

-- Pending, and its retry time has come.
abbrev pub is_due : ℕ → Delivery → Bool
is_due now d = is_pending d.status && leb d.next_retry_at now

abbrev pub attempt_one : Outside → ℕ → PushJob → Delivery → Tokens → Delivery × Tokens
attempt_one out now job d tokens =
    if is_due now d then send_one out now job d tokens else (d, tokens)

-- The loop over the deliveries: the number attempted, the rows and the tokens after it.
unfoldable pub attempt_due :
    Outside → ℕ → PushJob → List Delivery → Tokens → ℕ × List Delivery × Tokens
attempt_due out now job [] tokens = (0, [], tokens)
attempt_due out now job (d ∷ ds) tokens =
    let (d', tokens') = attempt_one out now job d tokens in
    let (n, ds', tokens'') = attempt_due out now job ds tokens' in
    ((if is_due now d then suc n else n), d' ∷ ds', tokens'')

abbrev pub unlocked : PushJob → PushJob
unlocked job = record job { locked_by = none; locked_at = none }

-- "retries_exhausted" stands only where no transport error was recorded.
abbrev pub give_up : Delivery → Delivery
give_up d =
    if is_pending d.status
    then record d {
      status = DeliveryStatus.failed;
      failure_code = elim d.failure_code [ none ↦ some "retries_exhausted" | some c ↦ some c ];
    }
    else d

abbrev pub count_status : (DeliveryStatus → Bool) → List Delivery → ℕ
count_status p ds = count_if (λ d. p d.status) ds

unfoldable pub aggregate : ℕ → PushJob → List Delivery → PushJob
aggregate now job deliveries =
    let sent = count_status is_sent deliveries in
    let failed = count_status is_failed deliveries in
    unlocked (
      if ltb 0 sent
      then record job {
        status = if failed == 0 then JobStatus.sent else JobStatus.partial_failed;
        sent_at = some now;
      }
      else record job {
        status = JobStatus.failed;
        last_error = some (if failed == 0 then "all_tokens_skipped" else "all_deliveries_failed");
      })

-- What follows the loop, `attempted` being its count.
unfoldable pub finish_round : Outside → ℕ → PushJob → ℕ → List Delivery → PushJob × List Delivery
unfolding aggregate
finish_round out now job attempted deliveries =
    let later =
      unlocked
        (record job { status = JobStatus.pending; available_at = now + out.retry_round_delay }) in
    if count_status is_pending deliveries == 0
    then (aggregate now job deliveries, deliveries)
    else if attempted == 0 && leb job.max_attempts (job.attempts + 1)
    then (later, deliveries)
    else if ltb (job.attempts + 1) job.max_attempts
    then (record later { attempts = job.attempts + 1 }, deliveries)
    else (aggregate now job (map give_up deliveries), map give_up deliveries)

unfoldable pub deliver_round :
    Outside → ℕ → PushJob → List Delivery → Tokens → PushJob × List Delivery × Tokens
unfolding attempt_due finish_round
deliver_round out now job [] tokens = (
  unlocked (record job { status = JobStatus.failed; last_error = some "no_active_tokens" }),
  [],
  tokens,
)
deliver_round out now job (d ∷ ds) tokens =
    let (attempted, rows, tokens') = attempt_due out now job (d ∷ ds) tokens in
    let (job', rows') = finish_round out now job attempted rows in (job', rows', tokens')
