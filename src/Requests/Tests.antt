-- ===== src/Requests/Tests.antt =====
-- The requests of concrete calls.
use link_lynx_ai.Common.{
  if◌then◌else◌, ℕ, String, Option, true, false, none, some, ◌≡◌, refl, ℤ, decimal, trim, is_empty,
}
use link_lynx_ai.Guilds.Data.{DmChannelSummary, map_dm_channel}
use link_lynx_ai.Requests.Plan.{Platform, string}
use link_lynx_ai.Requests.Answers.{Response, request_json, IsAccepted, request_json-IsAccepted}
use link_lynx_ai.Requests.Calls.{Call, plan}
use link_lynx_ai.Requests.Addresses.{is_addressed, plan-is_addressed, edit_message-direct}

abbrev platform : Platform
platform = record {
  encode = λ s. s;
  parse_int = λ s. some 12;
  to_number = λ s. some 12;
  number_json = λ s. string s;
}

abbrev direct : DmChannelSummary
direct = record {
  channel_id = 30;
  created_at = "";
  last_message_id = none;
  recipient = record { user_id = 5; display_name = "Eve"; avatar_key = none };
}

plan-is_addressed_example :
    is_addressed (plan platform (Call.edit_message (some "1") "10" "5" "hello" "1")) ≡ true
unfolding is_empty
plan-is_addressed_example =
    plan-is_addressed platform (Call.edit_message (some "1") "10" "5" "hello" "1") (λ s. refl) refl

edit_message-direct_example :
    is_addressed
      (plan platform (Call.edit_message none (map_dm_channel direct (ℤ.pos 0)).id "5" "hello" "1"))
    ≡ false
unfolding is_empty trim decimal
edit_message-direct_example =
    edit_message-direct platform direct (ℤ.pos 0) "5" "hello" "1" refl refl refl refl refl

abbrev response : Response
response = record {
  ok = true;
  status = 200;
  retry_after_ms = none;
  error_body = none;
  text = some "7";
}

abbrev digit : String → Option ℕ
digit s = if is_empty s then none else some 7

request_json-IsAccepted_example :
    (response.ok ≡ true) × (response.status ≡ 200) × IsAccepted digit (λ n. some n) response.text 7
unfolding request_json is_empty
request_json-IsAccepted_example = request_json-IsAccepted digit (λ n. some n) 200 response 7 refl
