-- ===== src/Applets/Ccid/Stream.antt =====
-- A stream of frames, cut anywhere into bulk packets, comes out as its frames, in order.
use aegis_token.Base.{
  ℕ, zero, suc, ◌+◌, ◌≤◌, ◌<◌, ◌≡◌, refl, sym, ap, ◌∙◌, ok, err, none, some, List, [], ◌∷◌, ◌++◌,
  append_assoc, All, length, drop, Bytes, length-append, arith, prefix_split, dec_lt, length-drop,
  subst,
}
use aegis_token.Applets.Ccid.{feed, pending, consume}
use aegis_token.Applets.Ccid.Frames.{IsFrame, pending-append, pending_partial}

unfoldable pub concat : List Bytes → Bytes
concat [] = []
concat (f ∷ fs) = f ++ concat fs

-- The loop of the card's task: every complete frame is taken from the buffer, on fuel that the
-- number of buffered bytes covers.
pub pop : ℕ → ℕ → Bytes → List Bytes × Bytes
pop zero capacity buffer = ([], buffer)
pop (suc fuel) capacity buffer = elim (pending capacity buffer) [
  | err e ↦ ([], buffer)
  | ok none ↦ ([], buffer)
  | ok (some frame) ↦
      let (frames, left) = pop fuel capacity (consume buffer (length frame)) in
      (frame ∷ frames, left)
]

-- The frames that come out of the buffer as packets are fed into it.
pub deliver : ℕ → Bytes → List Bytes → List Bytes
deliver capacity buffer [] = []
deliver capacity buffer (packet ∷ packets) =
    let (r, fed) = feed capacity buffer packet in
    let (frames, left) = pop (length fed) capacity fed in frames ++ deliver capacity left packets

-- What is left waits for the rest of the first frame to come.
abbrev IsPartial : Bytes → List Bytes → Type 0
IsPartial left [] = length left ≡ 0
IsPartial left (f ∷ fs) = length left < length f

record Popped (frames : List Bytes) (rest : Bytes) (out : List Bytes × Bytes) : Type 0 where
  todo : List Bytes
  order : out.0 ++ todo ≡ frames
  stream : out.1 ++ rest ≡ concat todo
  part : IsPartial out.1 todo

module _ (capacity : ℕ) where
  pop_empty :
      (fuel : ℕ) (buffer rest : Bytes)
      → buffer ++ rest ≡ []
      → Popped [] rest (pop (suc fuel) capacity buffer)
  unfolding pop pending concat
  pop_empty fuel [] rest e = record { todo = []; order = refl; stream = e; part = refl }
  pop_empty fuel (x ∷ xs) rest e = absurd (ground arith)

  -- A round that takes a frame, on top of the rounds after it.
  pop_frame :
      (fuel : ℕ) (f : Bytes) (fs : List Bytes) (buffer behind rest : Bytes)
      → IsFrame capacity f
      → f ++ behind ≡ buffer
      → Popped fs rest (pop fuel capacity behind)
      → Popped (f ∷ fs) rest (pop (suc fuel) capacity buffer)
  unfolding pop
  pop_frame fuel f fs buffer behind rest h e ih =
      let (taken, left) = pending-append capacity f behind h in
      rw (← e) (
        rw (taken, pop)
          (rw left (record {
            todo = ih.todo;
            order = ap (◌∷◌ f) ih.order;
            stream = ih.stream;
            part = ih.part;
          })))

  pop_rest :
      (fuel : ℕ) (frames : List Bytes) (buffer rest : Bytes)
      → All (IsFrame capacity) frames
      → buffer ++ rest ≡ concat frames
      → length buffer ≤ fuel
      → Popped frames rest (pop fuel capacity buffer)
  unfolding pop concat
  pop_rest zero [] buffer rest h e n = record {
    todo = [];
    order = refl;
    stream = e;
    part = omega arith;
  }
  pop_rest zero (f ∷ fs) buffer rest h e n = record {
    todo = f ∷ fs;
    order = refl;
    stream = e;
    part = omega (arith, h.0);
  }
  pop_rest (suc fuel) [] buffer rest h e n = pop_empty fuel buffer rest e
  pop_rest (suc fuel) (f ∷ fs) buffer rest h e n = elim (dec_lt (length buffer) (length f)) [
    | yes short ↦
        rw (pending_partial capacity f buffer rest (concat fs) h.0 e short, pop)
          (record { todo = f ∷ fs; order = refl; stream = e; part = short })
    | no long ↦
        let (front, behind) = prefix_split buffer rest f (concat fs) e (omega arith) in
        pop_frame fuel f fs buffer (drop (length f) buffer) rest h.0 front (
          pop_rest fuel fs (drop (length f) buffer) rest h.1 behind
            (omega (arith, length-drop (length f) buffer, h.0)))
  ]

  All-append : (P : Bytes → Type 0) (xs ys : List Bytes) → All P (xs ++ ys) → All P ys
  All-append P [] ys h = h
  All-append P (x ∷ xs) ys h = All-append P xs ys h.1

  IsPartial-nil :
      (frames : List Bytes) (buffer : Bytes)
      → buffer ++ [] ≡ concat frames
      → IsPartial buffer frames
      → [] ≡ frames
  unfolding concat
  IsPartial-nil [] buffer e part = refl
  IsPartial-nil (f ∷ fs) buffer e part = absurd (
      omega (
        arith,
        length-append buffer [],
        ap (λ (b : Bytes). length b) e,
        length-append f (concat fs),
      ))

  IsPartial-room :
      (packet_len : ℕ) (frames : List Bytes) (buffer p : Bytes)
      → All (λ f. length f + packet_len ≤ capacity) frames
      → length p ≤ packet_len
      → packet_len ≤ capacity
      → IsPartial buffer frames
      → feed capacity buffer p ≡ (ok tt, buffer ++ p)
  unfolding feed
  IsPartial-room packet_len [] buffer p room small cap part = ground arith
  IsPartial-room packet_len (f ∷ fs) buffer p room small cap part = ground arith

  -- The stream of all frames, fed packet by packet into a buffer that has room for each.
  deliver_rest :
      (packet_len : ℕ) (frames packets : List Bytes) (buffer : Bytes)
      → All (IsFrame capacity) frames
      → All (λ f. length f + packet_len ≤ capacity) frames
      → All (λ p. length p ≤ packet_len) packets
      → packet_len ≤ capacity
      → buffer ++ concat packets ≡ concat frames
      → IsPartial buffer frames
      → deliver capacity buffer packets ≡ frames
  unfolding deliver concat
  deliver_rest packet_len frames [] buffer h room small cap e part =
      IsPartial-nil frames buffer e part
  deliver_rest packet_len frames (p ∷ ps) buffer h room small cap e part =
      let fed = buffer ++ p in
      let out =
        pop_rest (length fed) frames fed (concat ps) h (append_assoc buffer p (concat ps) ∙ e)
          (omega arith) in
      let rest =
        deliver_rest packet_len out.todo ps (pop (length fed) capacity fed).1
          (All-append _ (pop (length fed) capacity fed).0 out.todo
            (subst (All (IsFrame capacity)) (sym out.order) h))
          (All-append _ (pop (length fed) capacity fed).0 out.todo
            (subst (All (λ f. length f + packet_len ≤ capacity)) (sym out.order) room))
          small.1 cap out.stream out.part in
      rw (IsPartial-room packet_len frames buffer p room small.0 cap part) (rw rest out.order)

  -- However bulk packets cut a stream of whole frames that declare their lengths, taking every
  -- complete frame out after each packet gives exactly those frames, in order, where the buffer
  -- has room for each frame and one packet more.
  pub stream_delivers :
      (packet_len : ℕ) (frames packets : List Bytes)
      → All (IsFrame capacity) frames
      → All (λ f. length f + packet_len ≤ capacity) frames
      → All (λ p. length p ≤ packet_len) packets
      → packet_len ≤ capacity
      → concat packets ≡ concat frames
      → deliver capacity [] packets ≡ frames
  stream_delivers packet_len [] packets h room small cap e =
      deliver_rest packet_len [] packets [] h room small cap e refl
  stream_delivers packet_len (f ∷ fs) packets h room small cap e =
      deliver_rest packet_len (f ∷ fs) packets [] h room small cap e (omega (arith, h.0.whole))
