-- ===== src/Core/OtpLab/Frames.antt =====
-- crates/aegis-core/src/otp_lab.rs: the reports that are requests.
use aegis_token.Base.{
  ℕ, zero, suc, ◌+◌, ◌%◌, ◌/◌, ◌^◌, ◌≤◌, ◌<◌, ◌≡◌, refl, sym, ap, subst, ◌∙◌, true, false, ok, [],
  ◌∷◌, ◌++◌, length, take, drop, Bytes, AllBytes, at, zeros, overlay, be32, from_be32,
  from_be32_to_be, length-overlay, length-replicate, take-overlay, length-take, drop-drop, arith,
}
use aegis_token.Core.OtpLab.{
  Command, unknown, from_code, code, Status, status_byte, success, Request, valid_channel,
  any_nonzero, parse_request, encode, encode_request, magic, version, max_payload, channel_of,
}

-- A command that a code decodes to: not an `Unknown` with the code of a known one.
abbrev pub IsDecoded : Command → Type 0
IsDecoded (unknown c) = from_code c ≡ unknown c
IsDecoded _ = Unit

from_code-code : (c : Command) → IsDecoded c → from_code (code c) ≡ c
unfolding from_code code
from_code-code (unknown c) h = h
from_code-code _ h = refl

pub code-from_code : (c : ℕ) → code (from_code c) ≡ c
unfolding from_code code
code-from_code c = ground arith

-- The 64 bytes of a report.
abbrev pub wire : Command → ℕ → Status → Bytes → Bytes
wire command channel status payload =
    magic
    ∷ version
    ∷ code command
    ∷ status_byte status
    ∷ (be32 channel ++ (length payload ∷ 0 ∷ overlay payload (zeros max_payload)))

pub length-wire :
    (command : Command) (channel : ℕ) (status : Status) (payload : Bytes)
    → length (wire command channel status payload) ≡ 64
length-wire command channel status payload =
    omega (arith, length-overlay payload (zeros 54), length-replicate {A = ℕ} 54 0)

pub encode_lem :
    (command : Command) (channel : ℕ) (status : Status) (payload : Bytes)
    → valid_channel channel ≡ true
    → length payload ≤ max_payload
    → encode command channel status payload ≡ ok (wire command channel status payload)
unfolding encode
encode_lem command channel status payload v fits = ground arith

no_zeros : (n : ℕ) → any_nonzero (zeros n) ≡ false
unfolding any_nonzero
no_zeros zero = refl
no_zeros (suc n) = no_zeros n

all_zeros : (xs : Bytes) → any_nonzero xs ≡ false → xs ≡ zeros (length xs)
unfolding any_nonzero
all_zeros [] h = refl
all_zeros (zero ∷ xs) h = ap (◌∷◌ 0) (all_zeros xs h)
all_zeros (suc x ∷ xs) h = ground arith

drop-overlay :
    (payload : Bytes) (n : ℕ)
    → length payload ≤ n
    → (k : ℕ) × (drop (length payload) (overlay payload (zeros n)) ≡ zeros k)
drop-overlay [] n h = (n, refl)
drop-overlay (x ∷ xs) zero h = absurd (omega arith)
drop-overlay (x ∷ xs) (suc n) h = drop-overlay xs n (omega arith)

padding_zero :
    (payload : Bytes)
    → length payload ≤ 54
    → any_nonzero (drop (length payload) (overlay payload (zeros 54))) ≡ false
padding_zero payload h = let (k, e) = drop-overlay payload 54 h in rw e (no_zeros k)

-- What a report with the ten header bytes and the field parses to.
parse_fields :
    (c c0 c1 c2 c3 n : ℕ) (field : Bytes)
    → length field ≡ 54
    → valid_channel (from_be32 c0 c1 c2 c3) ≡ true
    → n ≤ 54
    → any_nonzero (drop n field) ≡ false
    → parse_request (magic ∷ version ∷ c ∷ 0 ∷ c0 ∷ c1 ∷ c2 ∷ c3 ∷ n ∷ 0 ∷ field)
      ≡ ok (record {
        channel = from_be32 c0 c1 c2 c3;
        command = from_code c;
        payload = take n field;
      })
unfolding parse_request
parse_fields c c0 c1 c2 c3 n field e v fits clear =
    ground (arith, drop-drop n 10 (magic ∷ version ∷ c ∷ 0 ∷ c0 ∷ c1 ∷ c2 ∷ c3 ∷ n ∷ 0 ∷ field))

-- A request that is encoded parses to itself: for a valid channel and at most 54 bytes, the report
-- has 64 bytes, and parsing it gives the channel, the command and exactly the payload.
pub parse-encode_request :
    (channel : ℕ) (command : Command) (payload : Bytes)
    → channel < 2 ^ 32
    → valid_channel channel ≡ true
    → IsDecoded command
    → length payload ≤ max_payload
    → (report : Bytes) × (encode_request command channel payload ≡ ok report)
      × (length report ≡ 64)
      × (parse_request report
          ≡ ok (record { channel = channel; command = command; payload = payload }))
parse-encode_request channel command payload small v d fits = (
  wire command channel success payload,
  encode_lem command channel success payload v fits,
  length-wire command channel success payload,
  parse_fields (code command) (channel / 16777216 % 256) (channel / 65536 % 256)
        (channel / 256 % 256) (channel % 256) (length payload) (overlay payload (zeros 54))
        (omega (arith, length-overlay payload (zeros 54), length-replicate {A = ℕ} 54 0))
        (rw (from_be32_to_be channel small) v) fits (padding_zero payload fits)
      ∙ rw
          (
            from_be32_to_be channel small,
            from_code-code command d,
            take-overlay payload (zeros 54) (omega (arith, length-replicate {A = ℕ} 54 0)),
          )
          refl,
)

filled :
    (n m : ℕ) (field : Bytes)
    → length field ≡ m
    → n ≤ m
    → any_nonzero (drop n field) ≡ false
    → overlay (take n field) (zeros m) ≡ field
filled zero m field e h clear = ap zeros (sym e) ∙ sym (all_zeros field clear)
filled (suc n) m [] e h clear = absurd (omega arith)
filled (suc n) zero (x ∷ field) e h clear = absurd (omega arith)
filled (suc n) (suc m) (x ∷ field) e h clear =
    ap (◌∷◌ x) (filled n m field (omega arith) (omega arith) clear)

-- The bytes of a report of 64.
record Fields : Type 0 where
  m : ℕ
  v : ℕ
  c : ℕ
  s : ℕ
  c0 : ℕ
  c1 : ℕ
  c2 : ℕ
  c3 : ℕ
  n : ℕ
  r : ℕ
  field : Bytes

abbrev bytes_of : Fields → Bytes
bytes_of f = f.m ∷ f.v ∷ f.c ∷ f.s ∷ f.c0 ∷ f.c1 ∷ f.c2 ∷ f.c3 ∷ f.n ∷ f.r ∷ f.field

fields_of : (report : Bytes) → length report ≡ 64 → (f : Fields) × (report ≡ bytes_of f)
fields_of (a ∷ b ∷ c ∷ d ∷ e ∷ f ∷ g ∷ h ∷ i ∷ j ∷ rest) l = (
  record { m = a; v = b; c = c; s = d; c0 = e; c1 = f; c2 = g; c3 = h; n = i; r = j; field = rest },
  refl,
)
fields_of [] l = absurd (omega arith)
fields_of (a ∷ []) l = absurd (omega arith)
fields_of (a ∷ b ∷ []) l = absurd (omega arith)
fields_of (a ∷ b ∷ c ∷ []) l = absurd (omega arith)
fields_of (a ∷ b ∷ c ∷ d ∷ []) l = absurd (omega arith)
fields_of (a ∷ b ∷ c ∷ d ∷ e ∷ []) l = absurd (omega arith)
fields_of (a ∷ b ∷ c ∷ d ∷ e ∷ f ∷ []) l = absurd (omega arith)
fields_of (a ∷ b ∷ c ∷ d ∷ e ∷ f ∷ g ∷ []) l = absurd (omega arith)
fields_of (a ∷ b ∷ c ∷ d ∷ e ∷ f ∷ g ∷ h ∷ []) l = absurd (omega arith)
fields_of (a ∷ b ∷ c ∷ d ∷ e ∷ f ∷ g ∷ h ∷ i ∷ []) l = absurd (omega arith)

-- What a request that parses has gone through.
accepted :
    (report : Bytes) (request : Request)
    → parse_request report ≡ ok request
    → (length report ≡ 64)
      × ((at report 0 ≡ magic) × (at report 1 ≡ version) × (at report 3 ≡ 0) × (at report 9 ≡ 0))
      × (valid_channel (channel_of report) ≡ true)
      × (at report 8 ≤ 54)
      × (any_nonzero (drop (10 + at report 8) report) ≡ false)
      × (request ≡ record {
        channel = channel_of report;
        command = from_code (at report 2);
        payload = take (at report 8) (drop 10 report);
      })
unfolding parse_request
accepted report request h = ground arith

pub request_bounds :
    (report : Bytes) (request : Request)
    → parse_request report ≡ ok request
    → (valid_channel request.channel ≡ true) × (length request.payload ≤ max_payload)
request_bounds report request h =
    let (e, fixed, v, fits, clear, r) = accepted report request h in
    rw r (v, omega (arith, length-take (at report 8) (drop 10 report)))

be32-from_be32 :
    (c0 c1 c2 c3 : ℕ)
    → c0 < 256
    → c1 < 256
    → c2 < 256
    → c3 < 256
    → be32 (from_be32 c0 c1 c2 c3) ≡ c0 ∷ c1 ∷ c2 ∷ c3 ∷ []
be32-from_be32 c0 c1 c2 c3 h0 h1 h2 h3 = ground arith

-- The report that carries what the fields say is the report itself.
wire_fields :
    (f : Fields)
    → AllBytes (bytes_of f)
    → length f.field ≡ 54
    → (f.m ≡ magic) × (f.v ≡ version) × (f.s ≡ 0) × (f.r ≡ 0)
    → f.n ≤ 54
    → any_nonzero (drop f.n f.field) ≡ false
    → wire (from_code f.c) (from_be32 f.c0 f.c1 f.c2 f.c3) success (take f.n f.field) ≡ bytes_of f
wire_fields f bytes e (em, ev, es, er) fits clear =
    let (bm, (bv, (bc, (bs, (b0, (b1, (b2, (b3, more)))))))) = bytes in
    let l : length (take f.n f.field) ≡ f.n = omega (arith, length-take f.n f.field) in
    cc (
      be32-from_be32 f.c0 f.c1 f.c2 f.c3 b0 b1 b2 b3,
      code-from_code f.c,
      filled f.n 54 f.field e fits clear,
      em,
      ev,
      es,
      er,
      l,
    )

parsed :
    (f : Fields) (request : Request)
    → AllBytes (bytes_of f)
    → parse_request (bytes_of f) ≡ ok request
    → encode_request request.command request.channel request.payload ≡ ok (bytes_of f)
parsed f request bytes h =
    let (e, fixed, v, fits, clear, r) = accepted (bytes_of f) request h in
    let e54 : length f.field ≡ 54 = omega arith in
    let clear54 : any_nonzero (drop f.n f.field) ≡ false =
      rw (drop-drop f.n 10 (bytes_of f)) clear in
    rw r (
      encode_lem (from_code f.c) (from_be32 f.c0 f.c1 f.c2 f.c3) success (take f.n f.field) v
        (omega (arith, length-take f.n f.field))
      ∙ ap ok (wire_fields f bytes e54 fixed fits clear54))

-- Nothing else parses: a report of bytes that parses is, to the last byte, the one that encodes
-- the request it parses to.
pub encode-parse_request :
    (report : Bytes) (request : Request)
    → AllBytes report
    → parse_request report ≡ ok request
    → encode_request request.command request.channel request.payload ≡ ok report
encode-parse_request report request bytes h =
    let (f, shape) = fields_of report (accepted report request h).0 in
    subst
      (λ (l : Bytes).
        AllBytes l
        → parse_request l ≡ ok request
        → encode_request request.command request.channel request.payload ≡ ok l)
      (sym shape) (parsed f request) bytes h
