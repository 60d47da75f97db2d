-- ===== src/Examples/Rmp.antt =====
-- Readers and writers of the forms of MessagePack that the examples need.
use Prim.Native.String.{String}
use rpc_it_rs.Base.{
  ℕ, ◌+◌, ◌-◌, ◌*◌, ◌/◌, ◌%◌, ◌^◌, ◌<◌, ◌≤◌, ◌≡◌, refl, Option, none, some, List, [], ◌∷◌, ◌++◌,
  length, take, drop, length-drop, ◌&&◌, ◌==◌, ltb, leb, if◌then◌else◌, arith,
}
use rpc_it_rs.Base.Text.{codes, same_text}
use rpc_it_rs.Defs.{Bytes}
use rpc_it_rs.Codec.{
  ResponseError, busy, unknown, invalid_argument, unauthorized, method_not_found, aborted,
  unhandled, non_utf8_method_name, parse_failed,
}
use rpc_it_rs.Codec.ErrorCodes.{to_str}
use rpc_it_rs.ExtCodec.MsgpackRpc.Decode.{Reader, Rmp}
use rpc_it_rs.ExtCodec.MsgpackRpc.Bounds.{Shrinks, IsRmp}
use rpc_it_rs.ExtCodec.MsgpackRpc.Format.{Format, Reads}

-- Big-endian numbers.
abbrev be16 : ℕ → Bytes
be16 n = n / 256 ∷ n % 256 ∷ []

-- `write_uint`: the shortest form.
abbrev write_uint : ℕ → Bytes
write_uint n =
    if ltb n 128
    then n ∷ []
    else if ltb n 256
    then 204 ∷ n ∷ []
    else if ltb n 65536
    then 205 ∷ be16 n
    else 206 ∷ (be16 (n / 65536) ++ be16 (n % 65536))

abbrev word : ℕ → ℕ → ℕ → ℕ → ℕ
word a b c d = ((a * 256 + b) * 256 + c) * 256 + d

abbrev wide : Bytes → Option (ℕ × Bytes)
wide (a ∷ b ∷ c ∷ d ∷ rest) = some (word a b c d, rest)
wide _ = none

abbrev half : Bytes → Option (ℕ × Bytes)
half (a ∷ b ∷ rest) = some (a * 256 + b, rest)
half _ = none

abbrev single : Bytes → Option (ℕ × Bytes)
single (a ∷ rest) = some (a, rest)
single _ = none

abbrev read_int : Reader ℕ
read_int [] = none
read_int (m ∷ rest) =
    if ltb m 128
    then some (m, rest)
    else if m == 204
    then single rest
    else if m == 205
    then half rest
    else if m == 206
    then wide rest
    else none

reads_back : (n : ℕ) (rest : Bytes) → n < 2 ^ 32 → read_int (write_uint n ++ rest) ≡ some (n, rest)
reads_back n rest h = ground (arith, h)

abbrev below : ℕ → Option (ℕ × Bytes) → Option (ℕ × Bytes)
below bound none = none
below bound (some (n, rest)) = if ltb n bound then some (n, rest) else none

abbrev read_byte : Reader ℕ
read_byte s = below 256 (read_int s)

abbrev read_word : Reader ℕ
read_word s = below (2 ^ 32) (read_int s)

abbrev read_wide : Reader ℕ
read_wide [] = none
read_wide (m ∷ rest) = if m == 206 then wide rest else none

-- An array of less than sixteen elements.
abbrev read_array : Reader ℕ
read_array [] = none
read_array (m ∷ rest) = if leb 144 m && ltb m 160 then some (m - 144, rest) else none

abbrev read_null : Reader (Unit {0})
read_null [] = none
read_null (m ∷ rest) = if m == 192 then some (tt, rest) else none

abbrev write_str_len : ℕ → Bytes
write_str_len n = if ltb n 32 then (160 + n) ∷ [] else 219 ∷ (be16 (n / 65536) ++ be16 (n % 65536))

abbrev read_len : Reader ℕ
read_len [] = none
read_len (m ∷ rest) =
    if leb 160 m && ltb m 192 then some (m - 160, rest) else if m == 219 then wide rest else none

abbrev write_str : String → Bytes
write_str s = write_str_len (length (codes s)) ++ codes s

abbrev all_errors : List ResponseError
all_errors =
    unknown ∷ invalid_argument ∷ unauthorized ∷ busy ∷ method_not_found ∷ aborted ∷ unhandled
    ∷ non_utf8_method_name ∷ parse_failed ∷ []

-- Only the names of the error codes are read.
abbrev find_name : List ResponseError → Bytes → Option (String × Bytes)
find_name [] s = none
find_name (ec ∷ ecs) s =
    let n = length (codes (to_str ec)) in
    if same_text (take n s) (codes (to_str ec)) then some (to_str ec, drop n s) else find_name ecs s

abbrev read_name : Reader String
read_name [] = none
read_name (m ∷ rest) = find_name all_errors rest

abbrev pub rmp : Rmp
rmp = record {
  read_array_len = read_array;
  read_int_u8 = read_byte;
  read_int_u32 = read_word;
  read_str_len = read_len;
  read_nil = read_null;
  read_str_from_slice = read_name;
  read_u32 = read_wide;
}

abbrev pub format : Format
format = record {
  array_head = λ n. (144 + n) ∷ [];
  uint = write_uint;
  str_head = write_str_len;
  str = write_str;
}

reads_name :
    (ec : ResponseError) (rest : Bytes)
    → read_name (write_str (to_str ec) ++ rest) ≡ some (to_str ec, rest)
unfolding to_str
reads_name unknown rest = refl
reads_name invalid_argument rest = refl
reads_name unauthorized rest = refl
reads_name busy rest = refl
reads_name method_not_found rest = refl
reads_name aborted rest = refl
reads_name unhandled rest = refl
reads_name non_utf8_method_name rest = refl
reads_name parse_failed rest = refl

reads_wide :
    (n : ℕ)
    → n < 2 ^ 32
    → read_wide (write_uint n) ≡ (if ltb n (2 ^ 16) then none else some (n, []))
reads_wide n h = ground (arith, h)

pub rmp-Reads : Reads rmp format
rmp-Reads = record {
  array_len = λ n rest h. ground (arith, h);
  int_u8 = λ n rest h. ground (arith, reads_back n rest (omega (arith, h)), h);
  int_u32 = λ n rest h. ground (arith, reads_back n rest h, h);
  str_len = λ n rest h. ground (arith, h);
  str = reads_name;
  nil = λ rest. refl;
  array_not_nil = λ rest. refl;
  u32 = reads_wide;
}

read_int-Shrinks : Shrinks read_int
read_int-Shrinks [] rest a e = ground (arith, e)
read_int-Shrinks (x ∷ []) rest a e = ground (arith, e)
read_int-Shrinks (x ∷ y ∷ []) rest a e = ground (arith, e)
read_int-Shrinks (x ∷ y ∷ z ∷ []) rest a e = ground (arith, e)
read_int-Shrinks (x ∷ y ∷ z ∷ u ∷ []) rest a e = ground (arith, e)
read_int-Shrinks (x ∷ y ∷ z ∷ u ∷ v ∷ s) rest a e = ground (arith, e)

below-some :
    (bound : ℕ) (r : Option (ℕ × Bytes)) (n : ℕ) (rest : Bytes)
    → below bound r ≡ some (n, rest)
    → (r ≡ some (n, rest)) × (n < bound)
below-some bound none n rest e = ground (arith, e)
below-some bound (some (m, s)) n rest e = ground (arith, e)

read_len-Shrinks : Shrinks read_len
read_len-Shrinks [] rest a e = ground (arith, e)
read_len-Shrinks (x ∷ []) rest a e = ground (arith, e)
read_len-Shrinks (x ∷ y ∷ []) rest a e = ground (arith, e)
read_len-Shrinks (x ∷ y ∷ z ∷ []) rest a e = ground (arith, e)
read_len-Shrinks (x ∷ y ∷ z ∷ u ∷ []) rest a e = ground (arith, e)
read_len-Shrinks (x ∷ y ∷ z ∷ u ∷ v ∷ s) rest a e = ground (arith, e)

read_array-Shrinks : Shrinks read_array
read_array-Shrinks [] rest a e = ground (arith, e)
read_array-Shrinks (x ∷ s) rest a e = ground (arith, e)

read_null-Shrinks : Shrinks read_null
read_null-Shrinks [] rest a e = ground (arith, e)
read_null-Shrinks (x ∷ s) rest a e = ground (arith, e)

find_name-Shrinks :
    (ecs : List ResponseError) (s rest : Bytes) (a : String)
    → find_name ecs s ≡ some (a, rest)
    → length rest ≤ length s
find_name-Shrinks [] s rest a e = ground (arith, e)
find_name-Shrinks (ec ∷ ecs) s rest a e =
    let n = length (codes (to_str ec)) in
    let dropped = length-drop n s in ground (arith, e, dropped, find_name-Shrinks ecs s rest a)

read_name-Shrinks : Shrinks read_name
read_name-Shrinks [] rest a e = ground (arith, e)
read_name-Shrinks (x ∷ s) rest a e = omega (arith, find_name-Shrinks all_errors s rest a e)

pub rmp-IsRmp : IsRmp rmp
rmp-IsRmp = record {
  array_len = read_array-Shrinks;
  int_u8 = λ s rest a e. read_int-Shrinks s rest a (below-some 256 (read_int s) a rest e).0;
  int_u32 = λ s rest a e. read_int-Shrinks s rest a (below-some (2 ^ 32) (read_int s) a rest e).0;
  str_len = read_len-Shrinks;
  nil = read_null-Shrinks;
  str = read_name-Shrinks;
  u32 = λ s rest n e. (below-some (2 ^ 32) (read_int s) n rest e).1;
}
