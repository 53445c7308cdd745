-- ===== src/Tests/Versions.antt =====
-- A put of the file "f", a put of a newer version, and a get, with servers of PA4/server/dfs.c.
use network_systems.Prelude.{
  ℕ, ◌<◌, ◌≡◌, ◌≢◌, refl, Bool, true, false, some, [], ◌∷◌, arith, not, ◌==◌, length, append-nil,
}
use network_systems.CString.{Bytes, codes, contains, is_digit, decimal, cstr}
use network_systems.Stream.{bufsize}
use network_systems.Dfc.Messages.{put_packet}
use network_systems.Dfc.Network.{Client}
use network_systems.Dfc.Put.{put_file, running, split}
use network_systems.Dfc.Get.{get_file}
use network_systems.Dfc.Shelf.{IsChunk}
use network_systems.Dfc.Split.{part_of}
use network_systems.Dfc.RoundTrip.{new_session}
use network_systems.Dfs.Request.{is_done}
use network_systems.Dfs.Service.{entry_name, file_chunk}
use network_systems.Dfs.Service.Put.{IsPutRequest}
use network_systems.Dfs.Files.Newest.{Above}
use network_systems.Dfs.Node.{dfs_server}
use network_systems.Dfs.Node.Requests.{Sendable, Serves}
use network_systems.Dfs.Session.{get_file-put_file_dfs}
use network_systems.Dfs.Session.Versions.{
  IsVersion, IsNewer, IsTransitive, History, first, replaced,
}
use network_systems.Dfs.Session.LastPut.{get_file-History, put_file-History}
use network_systems.Tests.Common.{
  host, shell, file_name, file_name-IsPlainName, four_bytes, each_chunk, exceeds, request, serves,
  part-Sendable, one_segment, one_segment-IsTransport,
}

exceeds_trans : (a b c : Bytes) → exceeds a b ≡ true → exceeds b c ≡ true → exceeds a c ≡ true
exceeds_trans a [] c h k = cc k
exceeds_trans [] (y ∷ b) c h k = cc h
exceeds_trans (x ∷ a) (y ∷ b) [] h k = refl
exceeds_trans (x ∷ a) (y ∷ b) (z ∷ c) h k = ground (arith, exceeds_trans a b c)

exceeds_asym : (a b : Bytes) → exceeds a b ≡ true → exceeds b a ≡ false
exceeds_asym [] b h = cc h
exceeds_asym (x ∷ a) [] h = refl
exceeds_asym (x ∷ a) (y ∷ b) h = ground (arith, exceeds_asym a b)

host-IsTransitive : IsTransitive host
host-IsTransitive a b c (h, h') (k, k') =
    let ab : exceeds a b ≡ true = ground arith in
    let bc : exceeds b c ≡ true = ground arith in
    let ac = exceeds_trans a b c ab bc in (rw (exceeds_asym a c ac) refl, rw ac refl)

abbrev new_bytes : Bytes
new_bytes = codes "wxyz!"

abbrev new_part : ℕ → Bytes
new_part = part_of (split new_bytes)

abbrev ApartLater : ℕ → ℕ → Type 0
ApartLater c d =
    c ≢ d
    → contains (entry_name file_name (d ∷ []) (decimal 8)) (file_chunk file_name (c ∷ [])) ≡ false

patterns-ApartLater : (c : ℕ) → IsChunk c → (d : ℕ) → IsChunk d → ApartLater c d
unfolding decimal
patterns-ApartLater =
    each_chunk (λ c. (d : ℕ) → IsChunk d → ApartLater c d)
      (each_chunk (ApartLater b'1') (λ ne. absurd (ne refl)) (λ ne. refl) (λ ne. refl) (λ ne. refl))
      (each_chunk (ApartLater b'2') (λ ne. refl) (λ ne. absurd (ne refl)) (λ ne. refl) (λ ne. refl))
      (each_chunk (ApartLater b'3') (λ ne. refl) (λ ne. refl) (λ ne. absurd (ne refl)) (λ ne. refl))
      (each_chunk (ApartLater b'4') (λ ne. refl) (λ ne. refl) (λ ne. refl) (λ ne. absurd (ne refl)))

serves_later : Serves host file_name 8
unfolding decimal
serves_later = record {
  grep_self =
      each_chunk
        (λ c.
          contains (entry_name file_name (c ∷ []) (decimal 8)) (file_chunk file_name (c ∷ []))
          ≡ true)
        refl refl refl refl;
  grep_other = λ c d is is'. patterns-ApartLater c is d is';
  request = request;
  in_one_segment = λ c is. refl;
}

new_part-IsPutRequest :
    (c : ℕ) → IsChunk c → IsPutRequest host.dir file_name c (length (new_part c)) 8 (new_part c)
unfolding is_done split decimal
new_part-IsPutRequest c is = record {
  name = file_name-IsPlainName;
  digit = each_chunk (λ c. is_digit c ≡ true) refl refl refl refl c is;
  fits =
      each_chunk
        (λ c. length (put_packet file_name c (length (new_part c)) 8 (new_part c)) < bufsize)
        (omega arith) (omega arith) (omega arith) (omega arith) c is;
  short_time = omega arith;
  path_fits = omega arith;
  no_marker =
      each_chunk
        (λ c. is_done (put_packet file_name c (length (new_part c)) 8 (cstr (new_part c))) ≡ false)
        refl refl refl refl c is;
}

new_part-short : (c : ℕ) → IsChunk c → (0 < length (new_part c)) × (length (new_part c) < 3)
unfolding split
new_part-short =
    each_chunk (λ c. (0 < length (new_part c)) × (length (new_part c) < 3))
      (omega arith, omega arith) (omega arith, omega arith) (omega arith, omega arith)
      (omega arith, omega arith)

new_part-arrives : (c : ℕ) → IsChunk c → length (decimal (length (new_part c))) < 1024
unfolding split decimal
new_part-arrives =
    each_chunk (λ c. length (decimal (length (new_part c))) < 1024) (omega arith) (omega arith)
      (omega arith) (omega arith)

new_part-Sendable : (c : ℕ) → IsChunk c → Sendable host file_name 8 c (new_part c)
new_part-Sendable c is = record {
  is_chunk = is;
  part = new_part c;
  later = [];
  arrives = refl;
  full = tt;
  splits = append-nil (new_part c);
  request = new_part-IsPutRequest c is;
  some_bytes = (new_part-short c is).0;
  short_size = new_part-arrives c is;
}

old-IsVersion : IsVersion host file_name 7 four_bytes
old-IsVersion = record { serves = serves; sendable = part-Sendable; long = omega arith }

new-IsVersion : IsVersion host file_name 8 new_bytes
new-IsVersion = record { serves = serves_later; sendable = new_part-Sendable; long = omega arith }

new-IsNewer : IsNewer host file_name 7 8
unfolding decimal
new-IsNewer =
    each_chunk
      (λ c.
        Above shell (entry_name file_name (c ∷ []) (decimal 8))
          (entry_name file_name (c ∷ []) (decimal 7)))
      (refl, refl) (refl, refl) (refl, refl) (refl, refl)

abbrev all_up : ℕ → Bool
all_up d = true

abbrev third_down : ℕ → Bool
third_down d = not (d == 3)

-- The client after a put at time 7.
first_put : (c : Client (dfs_server host)) × History host file_name 2 one_segment c 7 four_bytes
first_put =
    let (c, c', ran, got) =
      get_file-put_file_dfs host file_name 7 serves four_bytes part-Sendable one_segment-IsTransport
        2 all_up all_up all_up (omega arith) (omega arith) (λ d l u. refl)
        (refl, refl, refl, refl) in
    (c, first 7 four_bytes all_up c (λ d l u. refl) old-IsVersion ran)

put_file-History_example :
    (c' : Client (dfs_server host)) × (put_file one_segment file_name 8 2 new_bytes
        (new_session all_up first_put.0)
      ≡ running c')
put_file-History_example =
    put_file-History one_segment-IsTransport (omega arith) host-IsTransitive 8 new_bytes all_up
      first_put.1 (λ d l u. refl) new-IsVersion new-IsNewer

second_put : (c : Client (dfs_server host)) × History host file_name 2 one_segment c 8 new_bytes
second_put =
    let (c', ran) =
      put_file-History {host = host} {filename = file_name} one_segment-IsTransport (omega arith)
        host-IsTransitive 8 new_bytes all_up first_put.1 (λ d l u. refl) new-IsVersion
        new-IsNewer in
    (
      c',
      replaced 7 8 four_bytes new_bytes all_up first_put.0 c' first_put.1 (λ d l u. refl)
          new-IsVersion new-IsNewer ran,
    )

get_file-History_example :
    (c' : Client (dfs_server host)) × (get_file one_segment file_name all_up
        (new_session third_down second_put.0)
      ≡ some (record { success = true; written = new_bytes; client = c' }))
get_file-History_example =
    get_file-History one_segment-IsTransport (omega arith) host-IsTransitive third_down all_up
      second_put.1 (refl, refl, refl, refl)
