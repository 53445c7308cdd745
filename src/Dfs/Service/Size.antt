-- ===== src/Dfs/Service/Size.antt =====
-- The message with the size of a chunk is read back by the client's `atoi`.
use network_systems.Prelude.{
  ℕ, suc, ◌-◌, ◌<◌, ◌≤◌, ◌≡◌, refl, true, false, sym, append-nil, ap, ◌∙◌, [], ◌∷◌, ◌++◌, arith,
  length, length-append, take, take-append_le, length-take,
}
use network_systems.CString.{
  Bytes, cstr, streq, all_digits, decimal-all_digits, cstr_terminated, decimal, elem-decimal, atoi,
  atoi-decimal, pos,
}
use network_systems.ChunkServer.{not_found_text}
use network_systems.Dfs.Request.{Memory}
use network_systems.Dfs.Service.{size_message}

take_pos : (n c : ℕ) (s : Bytes) → 0 < n → take n (c ∷ s) ≡ c ∷ take (n - 1) s
take_pos n c s h = let e : n ≡ suc (n - 1) = omega arith in ap (λ k. take k (c ∷ s)) e

size_message-decimal :
    (m : Memory) (n : ℕ)
    → length (decimal n) < 1024
    → size_message m n ≡ decimal n ++ 0 ∷ take (1024 - length (decimal n) - 1) m.stack
unfolding size_message
size_message-decimal m n h =
    take-append_le 1024 (decimal n) (0 ∷ m.stack) (omega arith)
    ∙ ap (λ s. decimal n ++ s) (take_pos (1024 - length (decimal n)) 0 m.stack (omega arith))

pub cstr-size_message :
    (m : Memory) (n : ℕ) → length (decimal n) < 1024 → cstr (size_message m n) ≡ decimal n
cstr-size_message m n h =
    ap cstr (size_message-decimal m n h) ∙ cstr_terminated (decimal n) _ (elem-decimal 0 n refl)

pub length-size_message-le : (m : Memory) (n : ℕ) → length (size_message m n) ≤ 1024
unfolding size_message
length-size_message-le m n = omega (arith, length-take 1024 (decimal n ++ 0 ∷ m.stack))

pub length-size_message_pos :
    (m : Memory) (n : ℕ) → length (decimal n) < 1024 → 0 < length (size_message m n)
length-size_message_pos m n h = omega (
  arith,
  ap length (size_message-decimal m n h),
  length-append (decimal n) (0 ∷ take (1024 - length (decimal n) - 1) m.stack),
)

pub atoi-size_message :
    (m : Memory) (n : ℕ) → length (decimal n) < 1024 → atoi (cstr (size_message m n)) ≡ pos n
atoi-size_message m n h =
    ap atoi (cstr-size_message m n h)
    ∙ ap atoi (sym (append-nil (decimal n)))
    ∙ atoi-decimal n [] tt

digits_differ : (s : Bytes) → all_digits s ≡ true → streq s not_found_text ≡ false
digits_differ [] h = refl
digits_differ (c ∷ s) h = ground arith

pub size_message_ne :
    (m : Memory) (n : ℕ)
    → length (decimal n) < 1024
    → streq (cstr (size_message m n)) not_found_text ≡ false
size_message_ne m n h =
    rw (cstr-size_message m n h) (digits_differ (decimal n) (decimal-all_digits n))
