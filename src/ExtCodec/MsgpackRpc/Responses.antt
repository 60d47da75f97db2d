-- ===== src/ExtCodec/MsgpackRpc/Responses.antt =====
-- A MessagePack-RPC response from its encoder to the caller's decoder.
use Prim.Native.String.{String}
use rpc_it_rs.Base.{ℕ, ◌≡◌, ◌≢◌, ◌⊎◌, Bool, Option, none, some, [], ◌∷◌, ◌++◌, ok, err, returns}
use rpc_it_rs.Defs.{Bytes, RangeType}
use rpc_it_rs.Codec.{EncodeResponsePayload, InboundFrameType, ResponseError}
use rpc_it_rs.Codec.ErrorCodes.{to_str, from_str}
use rpc_it_rs.ExtCodec.MsgpackRpc.Encode.{Message}
use rpc_it_rs.ExtCodec.MsgpackRpc.Decode.{Rmp, Decoded}
use rpc_it_rs.ExtCodec.MsgpackRpc.Format.{Format, Reads, HasRange}

-- No pair of the text of an error code and an object is read here: no array, an array of another
-- length, no text as its first element, or a text that is no error code.
abbrev pub NoCode : Rmp → Bytes → Type 0
NoCode rmp slot =
    (rmp.read_array_len slot ≡ none)
    ⊎ ((n : ℕ) × (rest : Bytes) × (rmp.read_array_len slot ≡ some (n, rest)) × (n ≢ 2))
    ⊎ ((rest : Bytes) × (rmp.read_array_len slot ≡ some (2, rest))
        × (rmp.read_str_from_slice rest ≡ none))
    ⊎ ((rest tail : Bytes) × (s : String) × (rmp.read_array_len slot ≡ some (2, rest))
        × (rmp.read_str_from_slice rest ≡ some (s, tail))
        × (from_str s ≡ err tt))

-- An error object alone is told from the other forms: it is not read as nil, nor as a pair of an
-- error code and an object.
abbrev pub Distinct : {S : Type 0} → Rmp → (S → Bytes) → EncodeResponsePayload S → Type 0
Distinct rmp value (EncodeResponsePayload.err_object_only o) =
    (rmp.read_nil (value o ++ (192 ∷ [])) ≡ none) × NoCode rmp (value o ++ (192 ∷ []))
Distinct rmp value _ = Unit {0}

-- What the caller gets back for a payload: the error code.
abbrev pub answer_code : {S : Type 0} → EncodeResponsePayload S → Option ResponseError
answer_code (EncodeResponsePayload.ok r) = none
answer_code (EncodeResponsePayload.err_code_only ec) = some ec
answer_code (EncodeResponsePayload.err_object_only o) = some ResponseError.unknown
answer_code (EncodeResponsePayload.err ec o) = some ec

module _ {S : Type 0} (format : Format) (value : S → Bytes) where
  -- What follows the id of a response: the error slot and the result slot. 192 is nil.
  abbrev pub answer_bytes : EncodeResponsePayload S → Bytes
  answer_bytes (EncodeResponsePayload.ok r) = 192 ∷ value r
  answer_bytes (EncodeResponsePayload.err_code_only ec) =
      format.array_head 2 ++ (format.str (to_str ec) ++ (192 ∷ 192 ∷ []))
  answer_bytes (EncodeResponsePayload.err_object_only o) = value o ++ (192 ∷ [])
  answer_bytes (EncodeResponsePayload.err ec o) =
      format.array_head 2 ++ (format.str (to_str ec) ++ (value o ++ (192 ∷ [])))

  -- The text of the payload that the caller gets.
  abbrev pub answer_text : EncodeResponsePayload S → Bytes
  answer_text (EncodeResponsePayload.ok r) = value r
  answer_text (EncodeResponsePayload.err_code_only ec) = 192 ∷ []
  answer_text (EncodeResponsePayload.err_object_only o) = value o
  answer_text (EncodeResponsePayload.err ec o) = value o

module _ {S : Type 0} (rmp : Rmp) (format : Format) (value : S → Bytes)
    (serialize : Message S → Bytes × Bool) (reads : Reads rmp format) where
  abbrev Answers : ℕ → Option ResponseError → Bytes → Bytes → Decoded → Type 0
  Answers id errc frame text d =
      (payload : RangeType) × (d ≡ returns (ok (InboundFrameType.response id errc payload)))
      × HasRange payload frame text
