-- ===== src/Applets/Apdu.antt =====
-- crates/aegis-applets/src/apdu.rs: command APDUs, responses, and the chaining of long responses.
pub mod Sw
pub mod Codec
pub mod Chaining
mod Examples
use aegis_token.Base.{
  ℕ, ◌+◌, ◌-◌, ◌%◌, min, Bool, true, false, not, ◌&&◌, ◌==◌, ltb, leb, if◌then◌else◌, Result, ok,
  err, Option, none, some, List, [], ◌∷◌, ◌++◌, length, take, drop, Bytes, at, from_be16, copy_at,
}
use Sw.{
  StatusWord, bytes, wrong_length, no_precise_diagnosis, conditions_not_satisfied, bytes_remaining,
}

abbrev pub short_response_limit : ℕ
short_response_limit = 256

pub record Apdu : Type 0 where
  pub cla : ℕ
  pub ins : ℕ
  pub p1 : ℕ
  pub p2 : ℕ
  pub payload : Bytes  -- `data`
  pub le : Option ℕ
  pub extended : Bool

-- `Apdu::new`, over the four bytes of the header.
abbrev new_apdu : Bytes → Bytes → Option ℕ → Bool → Apdu
new_apdu header payload le extended = record {
  cla = at header 0;
  ins = at header 1;
  p1 = at header 2;
  p2 = at header 3;
  payload = payload;
  le = le;
  extended = extended;
}

pub normalise : ℕ → ℕ → ℕ
normalise value zero_means = if value == 0 then zero_means else value

-- The extended encoding: `first` is the field after the zero, `rest` what follows it.
parse_extended : Bytes → ℕ → Bytes → Result StatusWord Apdu
unfolding normalise
parse_extended header first rest =
    if length rest == 0
    then ok (new_apdu header [] (some (normalise first 65536)) true)
    else if length rest == first
    then ok (new_apdu header rest none true)
    else if length rest == first + 2
    then ok (
        new_apdu header (take first rest)
          (some (normalise (from_be16 (at rest first) (at rest (first + 1))) 65536)) true)
    else err wrong_length

-- The short encoding: `lc` is the first byte of the body, `rest` what follows it.
parse_short : Bytes → ℕ → Bytes → Result StatusWord Apdu
unfolding normalise
parse_short header lc rest =
    if length rest == 0
    then ok (new_apdu header [] (some (normalise lc 256)) false)
    else if length rest == lc
    then ok (new_apdu header rest none false)
    else if length rest == lc + 1
    then ok (new_apdu header (take lc rest) (some (normalise (at rest lc) 256)) false)
    else err wrong_length

parse_body : Bytes → Bytes → Result StatusWord Apdu
unfolding parse_extended parse_short
parse_body header body =
    if length body == 0
    then ok (new_apdu header [] none false)
    else if at body 0 == 0 && ltb 1 (length body)
    then if ltb (length body) 3
      then err wrong_length
      else parse_extended header (from_be16 (at body 1) (at body 2)) (drop 3 body)
    else parse_short header (at body 0) (drop 1 body)

unfoldable pub parse : Bytes → Result StatusWord Apdu
unfolding parse_body
parse frame =
    if ltb (length frame) 4
    then err wrong_length
    else parse_body (at frame 0 ∷ at frame 1 ∷ at frame 2 ∷ at frame 3 ∷ []) (drop 4 frame)

pub expected_len : Apdu → ℕ
expected_len a = elim a.le [ some le ↦ le | none ↦ 0 ]

pub record Response : Type 0 where
  pub payload : Bytes  -- `data`
  pub sw : StatusWord

abbrev pub status : StatusWord → Response
status sw = record { payload = []; sw = sw }

abbrev pub ok_response : Bytes → Response
ok_response payload = record { payload = payload; sw = Sw.ok }

-- `out` as the call leaves it, with the number of bytes; `none` when it is too small.
unfoldable pub encode_into : Response → Bytes → Option (ℕ × Bytes)
encode_into r out =
    let len = length r.payload + 2 in
    if ltb (length out) len
    then none
    else some (len, copy_at (length r.payload) (bytes r.sw) (copy_at 0 r.payload out))

pub record Chainer : Type 0 where
  pub pending : Bytes
  pub delivered : ℕ

abbrev pub new_chainer : Chainer
new_chainer = record { pending = []; delivered = 0 }

abbrev pub clear : Chainer → Chainer
clear c = record c { pending = []; delivered = 0 }

unfoldable pub is_pending : Chainer → Bool
is_pending c = ltb c.delivered (length c.pending)

pub remaining : Chainer → ℕ
remaining c = length c.pending - c.delivered

-- `if le == 0 { SHORT_RESPONSE_LIMIT } else { le }`
abbrev pub window : ℕ → ℕ
window le = if le == 0 then short_response_limit else le

pub deliver : Chainer → ℕ → Response × Chainer
unfolding remaining
deliver c le =
    if remaining c == 0
    then (ok_response [], c)
    else if leb (remaining c) (window le)
    then (ok_response (drop c.delivered c.pending), record c { delivered = length c.pending })
    else let c' = record c { delivered = c.delivered + window le } in
      (
        record {
          payload = take (window le) (drop c.delivered c.pending);
          sw = bytes_remaining (min (remaining c') 255);
        },
        c',
      )

-- `N` is the capacity of the buffer.
unfoldable pub begin : ℕ → Chainer → Bytes → ℕ → Response × Chainer
begin capacity c payload le =
    if ltb capacity (length payload)
    then (status no_precise_diagnosis, clear c)
    else deliver (record (clear c) { pending = payload }) le

pub get_response : Chainer → ℕ → Response × Chainer
unfolding is_pending
get_response c le =
    if not (is_pending c) then (status conditions_not_satisfied, c) else deliver c le
