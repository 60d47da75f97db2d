-- ===== src/ExtCodec/JsonRpc/Fields.antt =====
-- What serde_json parses of a message that it wrote, and where it stands in the frame.
use rpc_it_rs.Base.{◌^◌, ◌<◌, ◌≡◌, subst, ◌∙◌, Bool, true, Option, none, some, length, slice}
use rpc_it_rs.Base.Int.{ℤ}
use rpc_it_rs.Defs.{Bytes, RangeType}
use rpc_it_rs.ExtCodec.JsonRpc.Encode.{Encode, ErrorEncodeData, version}
use rpc_it_rs.ExtCodec.JsonRpc.Decode.{
  Borrowed, RawData, RawErrorObject, range_of, frame_type, decode_raw, decode_inbound,
}
use rpc_it_rs.ExtCodec.JsonRpc.Bounds.{IsBorrowed?, range_of_exact}

-- A field that is there, with this text.
abbrev pub HasText : Option Borrowed → Bytes → Type 0
HasText field text = (s : Borrowed) × (field ≡ some s) × (s.text ≡ text)

abbrev pub HasError :
    {S : Type 0}
    → (ErrorEncodeData S → Bytes)
    → Option RawErrorObject
    → ℤ
    → ErrorEncodeData S
    → Type 0
HasError data_text field code data_ =
    (o : RawErrorObject) × (field ≡ some o)
    × (o.code ≡ some code)
    × HasText o.data_ (data_text data_)

-- What is parsed has the fields that were serialized: `value_text` and `data_text` give the JSON of a
-- payload.
abbrev pub Describes :
    {S : Type 0} → (S → Bytes) → (ErrorEncodeData S → Bytes) → Encode S → RawData → Type 0
Describes value_text data_text (Encode.encode_notify v m p) raw =
    (raw.jsonrpc.text ≡ v)
    × HasText raw.method m
    × HasText raw.params (value_text p)
    × (raw.id ≡ none)
Describes value_text data_text (Encode.encode_request v m p id) raw =
    (raw.jsonrpc.text ≡ v)
    × HasText raw.method m
    × HasText raw.params (value_text p)
    × HasText raw.id id
Describes value_text data_text (Encode.encode_response v (some r) error id) raw =
    (raw.jsonrpc.text ≡ v)
    × (raw.method ≡ none)
    × HasText raw.result (value_text r)
    × HasText raw.id id
Describes value_text data_text (Encode.encode_response v none (some e) id) raw =
    (raw.jsonrpc.text ≡ v)
    × (raw.method ≡ none)
    × (raw.result ≡ none)
    × HasError data_text raw.error e.code e.data_
    × HasText raw.id id
Describes value_text data_text (Encode.encode_response v none none id) raw =
    (raw.jsonrpc.text ≡ v)
    × (raw.method ≡ none)
    × (raw.result ≡ none)
    × (raw.error ≡ none)
    × HasText raw.id id

abbrev pub HasRange : RangeType → Bytes → Bytes → Type 0
HasRange r frame text = slice r.begin r.end frame ≡ text

-- A field of the frame, found by its range.
pub range-HasText :
    (frame : Bytes) (field : Option Borrowed) (text : Bytes)
    → length frame < 2 ^ 32
    → IsBorrowed? frame field
    → HasText field text
    → (s : Borrowed) × (field ≡ some s) × HasRange (range_of s) frame text
range-HasText frame field text small b (s, e, t) =
    (s, e, (range_of_exact frame s small (subst (IsBorrowed? frame) e b)).2 ∙ t)

pub decode_raw-version :
    (raw : RawData)
    → raw.jsonrpc.text ≡ version
    → decode_raw raw ≡ frame_type raw.method raw.params raw.id raw.result raw.error
unfolding decode_raw
decode_raw-version raw e = rw e

pub decode_inbound-parsed :
    (is_utf8 : Bytes → Bool) (parse : Bytes → Option RawData) (frame : Bytes) (raw : RawData)
    → is_utf8 frame ≡ true
    → parse frame ≡ some raw
    → decode_inbound is_utf8 parse frame ≡ decode_raw raw
unfolding decode_inbound
decode_inbound-parsed is_utf8 parse frame raw u e = rw (u, e)
