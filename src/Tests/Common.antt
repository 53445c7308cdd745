-- ===== src/Tests/Common.antt =====
-- A server, its shell and a network for the runs: the file "f" with four bytes.
use network_systems.Prelude.{
  ℕ, Bool, ◌<◌, ◌≤◌, ◌≡◌, ◌≢◌, refl, ap, true, false, [], ◌∷◌, arith, Bool-cases, inl, inr, ==→≡,
  ◌==◌, length, join, append-nil, not, ltb, ◌&&◌, ◌||◌,
}
use network_systems.CString.{Bytes, codes, contains, is_digit, decimal, cstr}
use network_systems.Stream.{Segments, bufsize}
use network_systems.Stream.Laws.{AllFull}
use network_systems.Dfc.Exchange.{IsTransport}
use network_systems.Dfc.Messages.{IsPlainName, put_packet, get_packet}
use network_systems.Dfc.Shelf.{IsChunk, AllSendable}
use network_systems.Dfc.Split.{part_of}
use network_systems.Dfc.Put.{split}
use network_systems.Dfs.Files.{Shell}
use network_systems.Dfs.Request.{Memory, is_done}
use network_systems.Dfs.Service.{entry_name, file_chunk}
use network_systems.Dfs.Service.Put.{IsPutRequest}
use network_systems.Dfs.Service.Get.{IsGetRequest}
use network_systems.Dfs.Node.{Host, dfs_server, idle}
use network_systems.Dfc.Network.{Client}
use network_systems.Dfc.Shelf.Placed.{Filled, no_shelf}
use network_systems.Dfs.Node.Requests.{Sendable, Serves, zeros}
use network_systems.Dfs.Node.Laws.{dfs_laws, IsSendable-intro, Lacks-intro}

-- Each message in one segment.
abbrev pub one_segment : Bytes → Segments
one_segment [] = []
one_segment (a ∷ s) = (a ∷ s) ∷ []

pub one_segment-IsTransport : IsTransport one_segment
one_segment-IsTransport = record { joins = joins; full = full; whole = whole }
  where
    joins : (b : Bytes) → join (one_segment b) ≡ b
    joins [] = refl
    joins (a ∷ s) = rw append-nil

    full : (b : Bytes) → AllFull (one_segment b)
    full [] = tt
    full (a ∷ s) = (omega arith, tt)

    whole : (b : Bytes) → 0 < length b → length b ≤ 1024 → one_segment b ≡ b ∷ []
    whole [] h l = absurd (omega arith)
    whole (a ∷ s) h l = refl

abbrev pub file_name : Bytes
file_name = codes "f"

abbrev pub four_bytes : Bytes
four_bytes = codes "abcd"

abbrev pub memory : Memory
memory = record { stale = []; beyond = []; stack = [] }

-- The order of the bytes: whether the first name comes behind the second.
abbrev pub exceeds : Bytes → Bytes → Bool
exceeds [] b = false
exceeds (c ∷ a) [] = true
exceeds (c ∷ a) (d ∷ b) = ltb d c || (c == d && exceeds a b)

abbrev pub shell : Shell
shell = record { grep = λ pattern line. contains line pattern; above = λ a b. not (exceeds b a) }

abbrev pub host : Host
host = record { dir = codes "./dfs1"; shell = shell; memory = memory; cut = one_segment }

pub each_chunk {ℓ} :
    (P : ℕ → Type ℓ) → P b'1' → P b'2' → P b'3' → P b'4' → (c : ℕ) → IsChunk c → P c
each_chunk P p₁ p₂ p₃ p₄ c is = elim (Bool-cases (c == b'1')) [
  | inl e ↦ rw (==→≡ c b'1' e) p₁
  | inr n₁ ↦ elim (Bool-cases (c == b'2')) [
    | inl e ↦ rw (==→≡ c b'2' e) p₂
    | inr n₂ ↦ elim (Bool-cases (c == b'3')) [
      | inl e ↦ rw (==→≡ c b'3' e) p₃
      | inr n₃ ↦ let e : c ≡ b'4' = ground arith in rw e p₄
    ]
  ]
]

pub file_name-IsPlainName : IsPlainName file_name
file_name-IsPlainName = record {
  ne_nil = λ e. absurd (omega (arith, ap length e));
  one_line = refl;
  no_nul = refl;
  no_size = refl;
  no_timestamp = refl;
}

pub request : (c : ℕ) → IsChunk c → IsGetRequest host.dir file_name c (zeros host file_name 7 c)
unfolding is_done
request c is = record {
  name = file_name-IsPlainName;
  digit = each_chunk (λ c. is_digit c ≡ true) refl refl refl refl c is;
  whole = omega arith;
  command_fits = omega arith;
  no_marker =
      each_chunk (λ c. is_done (get_packet file_name c []) ≡ false) refl refl refl refl c is;
}

abbrev pub part : ℕ → Bytes
part = part_of (split four_bytes)

-- The pattern of one chunk is not in the entry's name of another.
abbrev Apart : ℕ → ℕ → Type 0
Apart c d =
    c ≢ d
    → contains (entry_name file_name (d ∷ []) (decimal 7)) (file_chunk file_name (c ∷ [])) ≡ false

patterns-Apart : (c : ℕ) → IsChunk c → (d : ℕ) → IsChunk d → Apart c d
unfolding decimal
patterns-Apart =
    each_chunk (λ c. (d : ℕ) → IsChunk d → Apart c d)
      (each_chunk (Apart b'1') (λ ne. absurd (ne refl)) (λ ne. refl) (λ ne. refl) (λ ne. refl))
      (each_chunk (Apart b'2') (λ ne. refl) (λ ne. absurd (ne refl)) (λ ne. refl) (λ ne. refl))
      (each_chunk (Apart b'3') (λ ne. refl) (λ ne. refl) (λ ne. absurd (ne refl)) (λ ne. refl))
      (each_chunk (Apart b'4') (λ ne. refl) (λ ne. refl) (λ ne. refl) (λ ne. absurd (ne refl)))

pub serves : Serves host file_name 7
unfolding decimal
serves = record {
  grep_self =
      each_chunk
        (λ c.
          contains (entry_name file_name (c ∷ []) (decimal 7)) (file_chunk file_name (c ∷ []))
          ≡ true)
        refl refl refl refl;
  grep_other = λ c d is is'. patterns-Apart c is d is';
  request = request;
  in_one_segment = λ c is. refl;
}

IsPutRequest-part :
    (c : ℕ) → IsChunk c → IsPutRequest host.dir file_name c (length (part c)) 7 (part c)
unfolding is_done split decimal
IsPutRequest-part c is = record {
  name = file_name-IsPlainName;
  digit = each_chunk (λ c. is_digit c ≡ true) refl refl refl refl c is;
  fits =
      each_chunk (λ c. length (put_packet file_name c (length (part c)) 7 (part c)) < bufsize)
        (omega arith) (omega arith) (omega arith) (omega arith) c is;
  short_time = omega arith;
  path_fits = omega arith;
  no_marker =
      each_chunk (λ c. is_done (put_packet file_name c (length (part c)) 7 (cstr (part c))) ≡ false)
        refl refl refl refl c is;
}

length-part : (c : ℕ) → IsChunk c → length (part c) ≡ 1
unfolding split
length-part c is = each_chunk (λ c. length (part c) ≡ 1) refl refl refl refl c is

pub part-Sendable : (c : ℕ) → IsChunk c → Sendable host file_name 7 c (part c)
unfolding decimal
part-Sendable c is = record {
  is_chunk = is;
  part = part c;
  later = [];
  arrives = refl;
  full = tt;
  splits = append-nil (part c);
  request = IsPutRequest-part c is;
  some_bytes = omega (arith, length-part c is);
  short_size = rw (length-part c is) (omega arith);
}

pub sendable : AllSendable (dfs_laws host file_name 7 serves) part
sendable c is = IsSendable-intro host file_name 7 serves c (part c) (part-Sendable c is)

-- Four servers with empty directories, and a client that is connected to those that are up.
pub client : (ℕ → Bool) → Client (dfs_server host)
client live = record {
  nodes = λ d. idle [] [];
  streams = λ d. [];
  closed = λ d. false;
  live = live;
}

pub client-Filled :
    (live : ℕ → Bool)
    → Filled
        (dfs_laws host file_name 7 serves)
        part
        sendable
        one_segment-IsTransport
        (client live)
        no_shelf
        live
unfolding client
client-Filled live = record {
  stocked = λ d c is.
      Lacks-intro host file_name 7 serves (idle [] []) c
        (record { files = []; state = refl; no_match = tt; is_chunk = is });
  lives = refl;
  quiet = λ d. refl;
}
