-- ===== src/Load/Session/Http2/Frames.antt =====
-- What the frames of a payload carry, call by call of `buffer_read_callback`.
use h2loadrunner.Base.{
  ℕ, zero, suc, ◌+◌, ◌*◌, ◌≤◌, ◌<◌, ◌≡◌, ltb, if◌then◌else◌, true, false, [], ◌++◌, length, take,
  drop, take-append-drop, append_assoc, arith, ap, ◌∙◌, sym, refl, Bool-cases, inl, inr, append-nil,
}
use h2loadrunner.Text.{Bytes}
use h2loadrunner.Load.Session.Http2.{read_buffer}

-- The calls for one payload with a buffer of a length, until the payload ends.
unfoldable pub read_frames : ℕ → ℕ → Bytes → ℕ → Bytes
unfolding read_buffer
read_frames zero n payload cursor = []
read_frames (suc calls) n payload cursor =
    let (copied, eof, cursor') = read_buffer n payload cursor in
    let rest = read_frames calls n payload cursor' in if eof then copied else copied ++ rest

unfoldable pub copies : ℕ → Bytes → Bytes
copies zero s = []
copies (suc k) s = s ++ copies k s

-- The last call.
read_buffer_last :
    (n : ℕ) (payload : Bytes) (cursor : ℕ)
    → length payload ≤ cursor + n
    → cursor < length payload
    → read_buffer n payload cursor ≡ (drop cursor payload, true, length payload)
unfolding read_buffer
read_buffer_last n payload cursor h k = ground arith

read_buffer_more :
    (n : ℕ) (payload : Bytes) (cursor : ℕ)
    → cursor + n < length payload
    → read_buffer n payload cursor ≡ (take n payload, false, cursor + n)
unfolding read_buffer
read_buffer_more n payload cursor h = ground arith

read_frames_from :
    (k n : ℕ) (payload : Bytes) (cursor : ℕ)
    → 0 < n
    → cursor + k * n < length payload
    → length payload ≤ cursor + k * n + n
    → read_frames (suc k) n payload cursor
      ≡ copies k (take n payload) ++ drop (cursor + k * n) payload
unfolding read_frames copies
read_frames_from zero n payload cursor h below above =
    rw (read_buffer_last n payload cursor (omega arith) (omega arith))
      (ap (λ i. drop i payload) (omega arith))
read_frames_from (suc k) n payload cursor h below above =
    rw (read_buffer_more n payload cursor (ground arith)) (
      ap (◌++◌ (take n payload)) (
        read_frames_from k n payload (cursor + n) h (ground arith) (ground arith)
        ∙ ap (λ i. copies k (take n payload) ++ drop i payload) {y = cursor + suc k * n}
            (ground arith))
      ∙ sym (
          append_assoc (take n payload) (copies k (take n payload))
            (drop (cursor + suc k * n) payload)))

-- With frames of one length, the frames before the last one carry the first bytes of the payload, each of
-- them the same, and the last one the end of the payload.
pub read_frames_lem :
    (k n : ℕ) (payload : Bytes)
    → 0 < n
    → k * n < length payload
    → length payload ≤ k * n + n
    → read_frames (suc k) n payload 0 ≡ copies k (take n payload) ++ drop (k * n) payload
read_frames_lem k n payload h below above =
    read_frames_from k n payload 0 h (omega arith) (omega arith)
    ∙ ap (λ i. copies k (take n payload) ++ drop i payload) {y = k * n} (omega arith)

-- A payload that fits into two frames is carried whole.
pub read_frames_two :
    (n : ℕ) (payload : Bytes)
    → 0 < length payload
    → length payload ≤ n + n
    → read_frames 2 n payload 0 ≡ payload
unfolding read_frames copies
read_frames_two n payload some_bytes h = elim (Bool-cases (ltb n (length payload))) [
  | inl two ↦
      read_frames_lem 1 n payload (ground arith) (ground arith) (ground arith)
      ∙ ap (λ i. (take n payload ++ []) ++ drop i payload) {y = n} (omega arith)
      ∙ ap (λ l. l ++ drop n payload) (append-nil (take n payload))
      ∙ take-append-drop n payload
  | inr one ↦ rw (read_buffer_last n payload 0 (ground arith) some_bytes) refl
]
