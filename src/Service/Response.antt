-- ===== src/Service/Response.antt =====
-- `ensure_response_success`, `extract_attribute` and `get_attribute`.
pub mod Attributes
use ibc_solo_machine.Base.{
  List, [], ◌∷◌, Option, none, some, Text, text_eq, if◌then◌else◌, Result, ok, err, ensure, ok_or,
  ◌>>=◌, ◌>>◌, external, check_tx_failed, deliver_tx_failed, attribute_not_found,
}
use ibc_solo_machine.Env.{AbciEvent, EventAttribute, TxCommitResponse}

unfoldable pub ensure_response_success : TxCommitResponse → Result Text
ensure_response_success response = do
  ensure response.check_tx_ok check_tx_failed
  ensure response.tx_result_ok deliver_tx_failed
  ok response.hash

unfoldable pub get_attribute : List EventAttribute → Text → Result Text
get_attribute [] key = err attribute_not_found
get_attribute (tag ∷ tags) key = do
  k ← ok_or tag.key_str external
  let rest = get_attribute tags key
  if text_eq k key then ok_or tag.value_str external else rest

-- The loop of `extract_attribute`, from the attribute found so far.
unfoldable pub extract_from : List AbciEvent → Text → Text → Option Text → Result Text
extract_from [] event_type key attribute = ok_or attribute attribute_not_found
extract_from (event ∷ events) event_type key attribute =
    let found = (do
      value ← get_attribute event.attributes key
      extract_from events event_type key (some value)) in
    let skipped = extract_from events event_type key attribute in
    if text_eq event.kind event_type then found else skipped

unfoldable pub extract_attribute : List AbciEvent → Text → Text → Result Text
extract_attribute events event_type key = extract_from events event_type key none
