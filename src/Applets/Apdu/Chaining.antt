-- ===== src/Applets/Apdu/Chaining.antt =====
-- Chained responses lose nothing: what the host collects is what the applet answered.
use native.Mathlib.Decide.{dec_lt}
use aegis_token.Base.{
  ltb, length-append, length-zero, Bool-cases, ==→eq, leb→le, leb, ℕ, zero, suc, ◌+◌, ◌-◌, ◌≤◌, ◌<◌,
  min, ◌≡◌, refl, sym, ap, true, false, ◌==◌, inl, inr, [], ◌++◌, append-nil, length, take, drop,
  Bytes, length-take, length-drop, drop-drop, take-append-drop, drop-all, arith, if◌then◌else◌,
}
use aegis_token.Applets.Apdu.Sw
use aegis_token.Applets.Apdu.{
  Response, Chainer, deliver, begin, get_response, is_pending, remaining, window, status,
  ok_response, new_chainer,
}

pub record IsServing (capacity : ℕ) (c : Chainer) : Type 0 where
  pub within : c.delivered ≤ length c.pending
  pub fits : length c.pending ≤ capacity

-- What is left of the response.
abbrev pub rest : Chainer → Bytes
rest c = drop c.delivered c.pending

-- One exchange: a chunk and the rest make up what was pending; a chunk that is not the last fills
-- the window and announces what is left, up to 255 bytes; the last one answers 9000.
pub record IsChunk (le : ℕ) (before : Bytes) (r : Response) (after : Bytes) : Type 0 where
  pub split : r.payload ++ after ≡ before
  pub short : length r.payload ≤ window le
  pub last : length after ≡ 0 → r.sw ≡ Sw.ok
  pub more :
      0 < length after
      → (r.sw ≡ Sw.bytes_remaining (min (length after) 255)) × (length r.payload ≡ window le)

window_pos : (le : ℕ) → 0 < window le
window_pos le = ground arith

-- What an exchange does to the chainer.
abbrev Served : Chainer → ℕ → Response × Chainer → Type 0
Served c le (r, c') =
    IsChunk le (rest c) r (rest c') × (c'.delivered ≤ length c'.pending) × (c'.pending ≡ c.pending)

serve_done :
    (c : Chainer) (le : ℕ)
    → c.delivered ≤ length c.pending
    → length (rest c) ≡ 0
    → Served c le (ok_response [], c)
serve_done c le h z = (
  record {
    split = refl;
    short = omega (arith, window_pos le);
    last = λ e. refl;
    more = λ m. absurd (omega arith);
  },
  h,
  refl,
)

serve_final :
    (c : Chainer) (le : ℕ)
    → length (rest c) ≤ window le
    → Served c le (ok_response (rest c), record c { delivered = length c.pending })
serve_final c le z = (
  record {
    split = rw (drop-all (length c.pending) c.pending (omega arith)) (append-nil (rest c));
    short = z;
    last = λ e. refl;
    more = λ m. absurd (omega (arith, length-drop (length c.pending) c.pending));
  },
  omega arith,
  refl,
)

serve_partial :
    (c : Chainer) (le : ℕ)
    → window le < length (rest c)
    → Served c le (
      record {
        payload = take (window le) (rest c);
        sw = Sw.bytes_remaining (min (length c.pending - (c.delivered + window le)) 255);
      },
      record c { delivered = c.delivered + window le },
    )
serve_partial c le z = (
  record {
    split =
        rw (← drop-drop (window le) c.delivered c.pending) (take-append-drop (window le) (rest c));
    short = omega (arith, length-take (window le) (rest c));
    last = λ e. absurd (
        omega (
          arith,
          length-drop c.delivered c.pending,
          length-drop (c.delivered + window le) c.pending,
        ));
    more = λ m. (
      rw (length-drop (c.delivered + window le) c.pending),
      omega (arith, length-take (window le) (rest c)),
    );
  },
  omega (arith, length-drop c.delivered c.pending),
  refl,
)

deliver-Served :
    (c : Chainer) (le : ℕ) → c.delivered ≤ length c.pending → Served c le (deliver c le)
unfolding deliver
deliver-Served c le h = elim (Bool-cases (remaining c == 0)) [
  | inl e ↦ rw e (
      serve_done c le h (
        unfold remaining in
        omega (arith, length-drop c.delivered c.pending, ==→eq (remaining c) 0 e)))
  | inr e ↦ elim (Bool-cases (leb (remaining c) (window le))) [
    | inl f ↦
        rw (e, f)
          (serve_final c le
            (unfold remaining in omega (arith, length-drop c.delivered c.pending, leb→le _ _ f)))
    | inr f ↦
        rw (e, f)
          (serve_partial c le
            (unfold remaining in ground (arith, length-drop c.delivered c.pending)))
  ]
]

-- What a host collects by GET RESPONSE, with the same length each time, until nothing is pending.
unfoldable pub drain : ℕ → ℕ → Chainer → Bytes
drain zero le c = []
drain (suc fuel) le c =
    let later = (get_response c le).0.payload ++ drain fuel le (get_response c le).1 in
    if is_pending c then later else []

get_response-Served :
    (c : Chainer) (le : ℕ)
    → is_pending c ≡ true
    → c.delivered ≤ length c.pending
    → Served c le (get_response c le)
unfolding get_response
get_response-Served c le p h = rw p (deliver-Served c le h)

pending_rest : (c : Chainer) → is_pending c ≡ true → 0 < length (rest c)
unfolding is_pending
pending_rest c h = ground (arith, length-drop c.delivered c.pending)

not_pending_rest : (c : Chainer) → is_pending c ≡ false → rest c ≡ []
unfolding is_pending
not_pending_rest c h = drop-all c.delivered c.pending (ground arith)

shrinks :
    (le : ℕ) (before after : Bytes) (r : Response)
    → IsChunk le before r after
    → 0 < length before
    → length after < length before
shrinks le before after r h p = elim (dec_lt 0 (length after)) [
  | yes more ↦
      omega
        (arith, ap length h.split, length-append r.payload after, window_pos le, (h.more more).1)
  | no none_left ↦ omega arith
]

drain-eq-rest :
    (fuel le : ℕ) (c : Chainer)
    → c.delivered ≤ length c.pending
    → length (rest c) ≤ fuel
    → drain fuel le c ≡ rest c
unfolding drain
drain-eq-rest zero le c h f = sym (length-zero (rest c) (omega arith))
drain-eq-rest (suc fuel) le c h f = elim (Bool-cases (is_pending c)) [
  | inl p ↦
      let (chunk, ok', same) = get_response-Served c le p h in
      rw p (
        rw
          (drain-eq-rest fuel le (get_response c le).1 ok' (
            omega (
              arith,
              shrinks le (rest c) (rest (get_response c le).1) (get_response c le).0 chunk
                  (pending_rest c p),
            )))
          chunk.split)
  | inr p ↦ rw (p, not_pending_rest c p)
]

begin-Served :
    (capacity : ℕ) (c : Chainer) (answer : Bytes) (le : ℕ)
    → length answer ≤ capacity
    → Served (record { pending = answer; delivered = 0 }) le (begin capacity c answer le)
unfolding begin
begin-Served capacity c answer le h =
    let e : ltb capacity (length answer) ≡ false = ground arith in
    rw e (deliver-Served (record { pending = answer; delivered = 0 }) le (omega arith))

-- A response that fits the buffer reaches the host whole: the first chunk, followed by what
-- GET RESPONSE collects until nothing is pending, is the applet's answer, whatever length the
-- command and the GET RESPONSEs ask for. The answer's length is fuel enough.
pub chained_whole :
    (capacity : ℕ) (c : Chainer) (answer : Bytes) (le le' : ℕ)
    → length answer ≤ capacity
    → let (r, c') = begin capacity c answer le in r.payload ++ drain (length answer) le' c' ≡ answer
chained_whole capacity c answer le le' h =
    let (chunk, ok', same) = begin-Served capacity c answer le h in
    rw
      (drain-eq-rest (length answer) le' (begin capacity c answer le).1 ok' (
        omega (
          arith,
          ap length chunk.split,
          length-append (begin capacity c answer le).0.payload
              (rest (begin capacity c answer le).1),
        )))
      chunk.split

-- Every exchange of a chained response: for a chainer that has not delivered more than it holds,
-- GET RESPONSE while bytes are pending answers with a chunk of what is left, within the window,
-- and with 9000 or 61xx as something is left after it or not.
pub get_response-IsChunk :
    (c : Chainer) (le : ℕ)
    → c.delivered ≤ length c.pending
    → is_pending c ≡ true
    → IsChunk le (rest c) (get_response c le).0 (rest (get_response c le).1)
get_response-IsChunk c le h p = (get_response-Served c le p h).0

-- A response that does not fit fails closed: status 6F00, no data, and nothing left to collect.
pub begin_too_long :
    (capacity : ℕ) (c : Chainer) (answer : Bytes) (le fuel : ℕ)
    → capacity < length answer
    → (begin capacity c answer le ≡ (status Sw.no_precise_diagnosis, new_chainer))
      × (drain fuel le (begin capacity c answer le).1 ≡ [])
unfolding begin drain is_pending
begin_too_long capacity c answer le zero h = ground arith
begin_too_long capacity c answer le (suc fuel) h = ground arith

-- The two entry points keep a chainer that has delivered no more than it holds.
pub get_response-IsServing :
    (capacity : ℕ) (c : Chainer) (le : ℕ)
    → IsServing capacity c
    → IsServing capacity (get_response c le).1
unfolding get_response
get_response-IsServing capacity c le h = elim (Bool-cases (is_pending c)) [
  | inl p ↦
      let (chunk, ok', same) = deliver-Served c le h.within in
      rw p (record { within = ok'; fits = omega (arith, ap length same, h.fits) })
  | inr p ↦ rw p h
]

pub begin-IsServing :
    (capacity : ℕ) (c : Chainer) (answer : Bytes) (le : ℕ)
    → IsServing capacity (begin capacity c answer le).1
unfolding begin
begin-IsServing capacity c answer le = elim (Bool-cases (ltb capacity (length answer))) [
  | inl e ↦ rw e (record { within = omega arith; fits = omega arith })
  | inr e ↦
      let (chunk, ok', same) =
        deliver-Served (record { pending = answer; delivered = 0 }) le (omega arith) in
      rw e (record { within = ok'; fits = ground (arith, ap length same) })
]
