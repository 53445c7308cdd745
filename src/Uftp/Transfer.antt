-- ===== src/Uftp/Transfer.antt =====
-- The sender and the receiver of a file of PA1 over a network that loses nothing.
use network_systems.Prelude.{
  ◌^◌, ℕ, zero, suc, ◌+◌, ◌-◌, ◌*◌, ◌<◌, ◌≤◌, ◌≡◌, ◌≢◌, ◌==◌, ==→≡, ◌∙◌, refl, sym, ap, Bool, true,
  false, some, [], ◌∷◌, arith, ltb, length, take, drop, take_all, take-append-drop, length-take,
  length-drop, ltb→lt, append-nil, Bool-cases, inl, inr, if◌then◌else◌,
}
use network_systems.CString.{
  ℤ, pos_part, all_digits, is_digit, decimal-all_digits, Bytes, codes, decimal, atoi, atoi-decimal,
  cstr_self, streq, pos, elem-decimal,
}
use network_systems.Stream.{bufsize}
use network_systems.Machine.{ok}
use network_systems.Uftp.Send.{
  wait_ack, frame_size, send_loop, send_file, get_server, put_client, absent_text, refuse_text,
}
use network_systems.Uftp.Receive.{
  receive_loop, receive_file, get_client, put_server, int_size, datagram, opened,
}

-- An acknowledgement comes for each datagram of the file, or the sender does not wait for them.
abbrev Acks : Bool → ℕ → ℕ → Type 0
Acks true acks n = n ≤ acks * bufsize
Acks false acks n = Unit

wait_ack-Acks :
    (blocks : Bool) (acks n : ℕ)
    → Acks blocks acks n
    → 0 < n
    → (acks' : ℕ) × (wait_ack blocks acks ≡ some acks')
      × ((m : ℕ) → m ≤ n - bufsize → Acks blocks acks' m)
wait_ack-Acks true zero n a h = absurd (omega arith)
wait_ack-Acks true (suc acks) n a h = (acks, refl, λ m l. omega arith)
wait_ack-Acks false acks n a h = (acks, refl, λ m l. tt)

frame_size_pos : (fsize sent : ℕ) → sent < fsize → 0 < frame_size fsize sent
unfolding frame_size
frame_size_pos fsize sent h = ground arith

frame_size-le :
    (fsize sent : ℕ) → (frame_size fsize sent ≤ bufsize) × (frame_size fsize sent ≤ fsize - sent)
unfolding frame_size
frame_size-le fsize sent = (ground arith, ground arith)

-- A datagram is full, or the last.
frame_size_full : (fsize sent : ℕ) → fsize - sent - frame_size fsize sent ≤ fsize - sent - bufsize
unfolding frame_size
frame_size_full fsize sent = ground arith

length-eq-zero : (s : Bytes) → length s ≡ 0 → s ≡ []
length-eq-zero [] e = refl
length-eq-zero (c ∷ s) e = absurd (omega arith)

loop_step :
    (fuel : ℕ) (blocks : Bool) (acks acks' fsize sent : ℕ) (left : Bytes)
    → ltb sent fsize ≡ true
    → wait_ack blocks acks ≡ some acks'
    → datagram (take (frame_size fsize sent) left) ≡ take (frame_size fsize sent) left
    → receive_loop fsize (sent + length (take (frame_size fsize sent) left)) (
        send_loop fuel blocks acks' fsize
          (sent + length (take (frame_size fsize sent) left))
          (drop (frame_size fsize sent) left))
      ≡ drop (frame_size fsize sent) left
    → receive_loop fsize sent (send_loop (suc fuel) blocks acks fsize sent left) ≡ left
unfolding receive_loop send_loop
loop_step fuel blocks acks acks' fsize sent left more w whole rest =
    rw (more, w, more, whole, rest) (take-append-drop (frame_size fsize sent) left)

loop_end :
    (fuel : ℕ) (blocks : Bool) (acks fsize sent : ℕ) (left : Bytes)
    → ltb sent fsize ≡ false
    → left ≡ []
    → receive_loop fsize sent (send_loop (suc fuel) blocks acks fsize sent left) ≡ left
unfolding receive_loop send_loop
loop_end fuel blocks acks fsize sent left done e = rw done (sym e)

loop_lem :
    (fuel : ℕ) (blocks : Bool) (acks fsize sent : ℕ) (left : Bytes)
    → length left ≡ fsize - sent
    → length left < fuel
    → Acks blocks acks (length left)
    → receive_loop fsize sent (send_loop fuel blocks acks fsize sent left) ≡ left
loop_lem zero blocks acks fsize sent left e h a = absurd (omega arith)
loop_lem (suc fuel) blocks acks fsize sent left e h a = elim (Bool-cases (ltb sent fsize)) [
  | inr done ↦ loop_end fuel blocks acks fsize sent left done (length-eq-zero left (ground arith))
  | inl more ↦
      let lt : sent < fsize = ltb→lt sent fsize more in
      let size = frame_size fsize sent in
      let pos = frame_size_pos fsize sent lt in
      let (fits, le) = frame_size-le fsize sent in
      let len : length (take size left) ≡ size = omega (arith, length-take size left, le, e) in
      let (acks', w, later) = wait_ack-Acks blocks acks (length left) a (omega arith) in
      loop_step fuel blocks acks acks' fsize sent left more w
        (take_all bufsize (take size left) (omega arith))
        (loop_lem fuel blocks acks' fsize (sent + length (take size left)) (drop size left)
          (omega (arith, length-drop size left, len, e)) (omega (arith, length-drop size left, pos))
          (later _ (omega (arith, length-drop size left, frame_size_full fsize sent, e))))
]

true_ne_false : true ≢ false
true_ne_false e = cc e

first_digit : (x : ℕ) (s : Bytes) → all_digits (x ∷ s) ≡ true → is_digit x ≡ true
first_digit x s d = ground arith

differs :
    (s : Bytes) (c : ℕ) (t : Bytes)
    → all_digits s ≡ true
    → is_digit c ≡ false
    → streq s (c ∷ t) ≡ false
differs [] c t d h = refl
differs (x ∷ s) c t d h = elim (Bool-cases (x == c)) [
  | inr other ↦ rw other
  | inl same ↦ absurd (true_ne_false (sym (first_digit x s d) ∙ ap is_digit (==→≡ x c same) ∙ h))
]

opened-send_file :
    (to_size : ℤ → ℕ) (refusal : Bytes) (c : ℕ) (t : Bytes) (fuel : ℕ) (blocks : Bool) (acks : ℕ)
    (file : Bytes)
    → refusal ≡ c ∷ t
    → is_digit c ≡ false
    → length file < fuel
    → Acks blocks acks (length file)
    → length (decimal (length file)) ≤ bufsize
    → to_size (pos (length file)) ≡ length file
    → opened to_size refusal (send_file fuel blocks acks file) ≡ some (ok file)
unfolding send_file receive_file
opened-send_file to_size refusal c t fuel blocks acks file same h enough a short sized =
    rw
      (
        take_all bufsize (decimal (length file)) short,
        cstr_self (decimal (length file)) (elem-decimal 0 (length file) refl),
        same,
        differs (decimal (length file)) c t (decimal-all_digits (length file)) h,
        size,
        sized,
      )
      body
  where
    body :
        some (
          receive_file (length file) (
            if ltb (length file) bufsize
            then file ∷ []
            else send_loop fuel blocks acks (length file) 0 file))
        ≡ some (ok file)
    body = elim (Bool-cases (ltb (length file) bufsize)) [
      | inl small ↦ rw small (ap (λ b. some (ok b)) (take_all bufsize file (ground arith)))
      | inr large ↦ rw large (
          ap (λ b. some (ok b))
            (loop_lem fuel blocks acks (length file) 0 file (omega arith) enough a))
    ]

    size : atoi (decimal (length file)) ≡ pos (length file)
    size = rw append-nil at (atoi-decimal (length file) [] tt)

-- A get gives the client the file, byte for byte, if no datagram is lost: the server gets an
-- acknowledgement for each datagram of BUFSIZE bytes, and one unit of fuel more than there are
-- bytes is enough.
pub get_client-get_server :
    (fuel acks : ℕ) (file : Bytes)
    → length file < fuel
    → length file ≤ acks * bufsize
    → length (decimal (length file)) ≤ bufsize
    → get_client (get_server fuel acks (some file)) ≡ some (ok file)
unfolding get_client get_server
get_client-get_server fuel acks file enough a short =
    opened-send_file pos_part absent_text b'F' (codes "ile does not exist") fuel true acks file refl
      refl enough a short refl

-- A put gives the server the file, byte for byte, if no datagram is lost; the client does not wait
-- for ever.
pub put_server-put_client :
    (fuel : ℕ) (file : Bytes)
    → length file < fuel
    → length (decimal (length file)) ≤ bufsize
    → length file < 2 ^ 31
    → put_server (put_client fuel (some file)) ≡ some (ok file)
unfolding put_server put_client send_file
put_server-put_client fuel file enough short small =
    opened-send_file int_size refuse_text b'D' (codes "on't create this file") fuel false 0 file
      refl refl enough tt short in_int
  where
    in_int : int_size (pos (length file)) ≡ length file
    in_int = ground arith
