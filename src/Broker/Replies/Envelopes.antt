-- ===== src/Broker/Replies/Envelopes.antt =====
-- An envelope that was published is the one that is taken: what JSON.stringify writes, as far as
-- `parseEnvelope` of src/broker/resp.ts reads it back.
use open_dilim.Prelude.{◌≡◌, refl, ◌∙◌, ap, Bool, false, Option, none, some, List, [], ◌∷◌, any}
use open_dilim.Prelude.Text.{Text, codes, text_eq, is_empty}
use open_dilim.Chat.{Envelope, MessageSource, channel, cron, distill, proactive, Mention}
use open_dilim.Workflow.Types.{
  Value, boolean, integer, text, array, object, Items, nil, cons, Fields, end, field,
}
use open_dilim.Workflow.Row.{get}
use open_dilim.Broker.Replies.{
  ParsedEnvelope, mentions_in, parse_mentions, source_of, without_checked, envelope_of,
  parse_envelope, checked_fields,
}

abbrev source_text : MessageSource → Text
source_text channel = codes "channel"
source_text cron = codes "cron"
source_text distill = codes "distill"
source_text proactive = codes "proactive"

abbrev mention_items : List Mention → Items
mention_items [] = nil
mention_items (mention ∷ mentions) =
    cons (object (field (codes "uid") (text mention.uid) end)) (mention_items mentions)

-- JSON.stringify leaves out what is undefined.
unfoldable optional_text : Text → Option Text → Fields → Fields
optional_text name none rest = rest
optional_text name (some t) rest = field name (text t) rest

abbrev optional_boolean : Text → Option Bool → Fields → Fields
optional_boolean name none rest = rest
optional_boolean name (some b) rest = field name (boolean b) rest

-- The fields that are not checked.
abbrev pub unchecked_fields : Envelope → Fields
unfolding optional_text
unchecked_fields e = optional_text (codes "cliMsgId") e.cli_msg_id (
    optional_text (codes "senderName") e.sender_name (
      optional_text (codes "imageUrl") e.image_url (
        optional_text (codes "fileUrl") e.file_url
          (optional_text (codes "fileName") e.file_name end))))

-- The object that JSON.stringify writes, whose order does not matter.
abbrev pub envelope_fields : Envelope → Fields
unfolding optional_text
envelope_fields e = field (codes "source") (text (source_text e.source)) (
    field (codes "channel") (text e.channel) (
      field (codes "msgId") (text e.msg_id) (
        field (codes "conversationId") (text e.conversation_id) (
          field (codes "senderId") (text e.sender_id) (
            field (codes "isGroup") (boolean e.is_group) (
              field (codes "addressedToAgent") (boolean e.addressed_to_agent) (
                field (codes "text") (text e.text) (
                  field (codes "mentions") (array (mention_items e.mentions)) (
                    field (codes "ts") (integer e.ts) (
                      optional_boolean (codes "intentGate") e.intent_gate
                        (unchecked_fields e)))))))))))

abbrev is_some_true : Option Bool → Bool
is_some_true none = false
is_some_true (some b) = b

abbrev pub parsed : Envelope → ParsedEnvelope
parsed e = record {
  source = e.source;
  channel = e.channel;
  msg_id = e.msg_id;
  conversation_id = e.conversation_id;
  sender_id = e.sender_id;
  is_group = e.is_group;
  addressed_to_agent = e.addressed_to_agent;
  text = e.text;
  mentions = e.mentions;
  ts = integer e.ts;
  intent_gate = is_some_true e.intent_gate;
  rest = unchecked_fields e;
}

mentions_in-mention_items :
    (mentions : List Mention) → mentions_in (mention_items mentions) ≡ some mentions
unfolding mentions_in get text_eq
mentions_in-mention_items [] = refl
mentions_in-mention_items (mention ∷ mentions) = rw (mentions_in-mention_items mentions) refl

source_of-source_text : (source : MessageSource) → source_of (source_text source) ≡ some source
unfolding source_of text_eq
source_of-source_text channel = refl
source_of-source_text cron = refl
source_of-source_text distill = refl
source_of-source_text proactive = refl

-- A field that is not checked is taken over.
without_checked-optional :
    (name : Text) (o : Option Text) (rest : Fields)
    → any (text_eq name) checked_fields ≡ false
    → without_checked (optional_text name o rest) ≡ optional_text name o (without_checked rest)
unfolding without_checked optional_text
without_checked-optional name none rest free = refl
without_checked-optional name (some t) rest free = rw free refl

get-optional :
    (name other : Text) (o : Option Text) (rest : Fields)
    → text_eq name other ≡ false
    → get (optional_text name o rest) other ≡ get rest other
unfolding get optional_text
get-optional name other none rest apart = refl
get-optional name other (some t) rest apart = rw apart refl

module _ (e : Envelope) where
  without_checked-unchecked : without_checked (unchecked_fields e) ≡ unchecked_fields e
  unfolding text_eq unchecked_fields
  without_checked-unchecked =
      let last = optional_text (codes "fileName") e.file_name end in
      let four = optional_text (codes "fileUrl") e.file_url last in
      let three = optional_text (codes "imageUrl") e.image_url four in
      let two = optional_text (codes "senderName") e.sender_name three in
      without_checked-optional (codes "cliMsgId") e.cli_msg_id two refl
      ∙ ap (optional_text (codes "cliMsgId") e.cli_msg_id) (
          without_checked-optional (codes "senderName") e.sender_name three refl
          ∙ ap (optional_text (codes "senderName") e.sender_name) (
              without_checked-optional (codes "imageUrl") e.image_url four refl
              ∙ ap (optional_text (codes "imageUrl") e.image_url) (
                  without_checked-optional (codes "fileUrl") e.file_url last refl
                  ∙ ap (optional_text (codes "fileUrl") e.file_url) (
                      without_checked-optional (codes "fileName") e.file_name end refl
                      ∙ ap (optional_text (codes "fileName") e.file_name) nothing_left))))
    where
      nothing_left : without_checked end ≡ end
      nothing_left = unfold without_checked in refl

  get-unchecked : get (unchecked_fields e) (codes "intentGate") ≡ none
  unfolding text_eq unchecked_fields get
  get-unchecked =
      let gate = codes "intentGate" in
      let last = optional_text (codes "fileName") e.file_name end in
      let four = optional_text (codes "fileUrl") e.file_url last in
      let three = optional_text (codes "imageUrl") e.image_url four in
      let two = optional_text (codes "senderName") e.sender_name three in
      get-optional (codes "cliMsgId") gate e.cli_msg_id two refl
      ∙ get-optional (codes "senderName") gate e.sender_name three refl
      ∙ get-optional (codes "imageUrl") gate e.image_url four refl
      ∙ get-optional (codes "fileUrl") gate e.file_url last refl
      ∙ get-optional (codes "fileName") gate e.file_name end refl

  module _ (has_channel : is_empty e.channel ≡ false) (has_msg_id : is_empty e.msg_id ≡ false)
      (has_room : is_empty e.conversation_id ≡ false) where
    envelope_of-fields :
        (gate : Option Bool)
        → e.intent_gate ≡ gate
        → envelope_of (envelope_fields e) ≡ some (parsed e)
    unfolding envelope_of get text_eq parse_mentions without_checked envelope_fields
    envelope_of-fields none g =
        rw
          (
            g,
            mentions_in-mention_items e.mentions,
            source_of-source_text e.source,
            has_channel,
            has_msg_id,
            has_room,
            without_checked-unchecked,
            get-unchecked,
          )
          refl
    envelope_of-fields (some b) g =
        rw
          (
            g,
            mentions_in-mention_items e.mentions,
            source_of-source_text e.source,
            has_channel,
            has_msg_id,
            has_room,
            without_checked-unchecked,
          )
          refl

    -- Where JSON.parse reads back what JSON.stringify writes, an envelope with a channel, an id and a
    -- room is read back from the stream with all its fields, those that are not checked included.
    pub parse_envelope-stringify :
        (stringify : Envelope → Text) (parse_json : Text → Option Value)
        → parse_json (stringify e) ≡ some (object (envelope_fields e))
        → parse_envelope parse_json (stringify e) ≡ some (parsed e)
    unfolding parse_envelope
    parse_envelope-stringify stringify parse_json json =
        rw json (envelope_of-fields e.intent_gate refl)
