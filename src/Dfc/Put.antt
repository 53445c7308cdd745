-- ===== src/Dfc/Put.antt =====
-- The put of PA4/client/dfc.c: a file is cut into four parts, and each part goes to two servers,
-- which the hash of the file's name chooses.
use network_systems.Prelude.{
  ℕ, ◌-◌, ◌*◌, ◌/◌, Option, none, some, if◌then◌else◌, ◌==◌, length, take, drop,
}
use network_systems.CString.{Bytes}
use network_systems.Stream.{Segments, bufsize}
use network_systems.ChunkServer.{ChunkServer}
use network_systems.Dfc.Messages.{put_packet}
use network_systems.Dfc.Network.{Client, send, receive}

-- p1 to p4, as `fread` fills them
pub record Parts : Type 0 where
  pub p1 : Bytes
  pub p2 : Bytes
  pub p3 : Bytes
  pub p4 : Bytes

unfoldable pub split : Bytes → Parts
split file =
    let fsize = length file in
    let chunk_s = fsize / 4 in
    let p4_size = fsize - 3 * (fsize / 4) in
    record {
      p1 = take chunk_s file;
      p2 = take chunk_s (drop chunk_s file);
      p3 = take chunk_s (drop chunk_s (drop chunk_s file));
      p4 = take p4_size (drop chunk_s (drop chunk_s (drop chunk_s file)));
    }

-- The process goes on, or has left by exit(0).
pub data Run (server : ChunkServer) : Type 0 where
  running : Client server → Run server
  exited : Client server → Run server

-- What comes next, unless the process has left.
infixl 5 ◌then_run◌
abbrev pub ◌then_run◌ :
    {server : ChunkServer} → Run server → (Client server → Run server) → Run server
running c then_run f = f c
exited c then_run f = exited c

module _ {server : ChunkServer} (cut : Bytes → Segments) (filename : Bytes) (time : ℕ) where
  abbrev after_ack : Client server → Option (Bytes × Client server) → Run server
  after_ack c none = exited c
  after_ack c (some (ack, c')) = running c'

  -- `send_chunk`, and the `recv` of the acknowledgement that follows each call
  unfoldable pub send_chunk : ℕ → Bytes → ℕ → Client server → Run server
  send_chunk chunk_num chunk d c =
      let sent = send cut d (put_packet filename chunk_num (length chunk) time chunk) c in
      after_ack sent (receive bufsize d sent)

  -- if (live_servers[d - 1] == 1), two chunks to server d
  unfoldable pub send_pair : ℕ → ℕ → Bytes → ℕ → Bytes → Client server → Run server
  send_pair d num_a a num_b b c =
      if c.live d then send_chunk num_a a d c then_run send_chunk num_b b d else running c

  unfoldable pub place_x0 : Parts → Client server → Run server
  place_x0 p c =
      send_pair 1 b'1' p.p1 b'2' p.p2 c
      then_run send_pair 2 b'2' p.p2 b'3' p.p3
      then_run send_pair 3 b'3' p.p3 b'4' p.p4
      then_run send_pair 4 b'4' p.p4 b'1' p.p1

  unfoldable pub place_x1 : Parts → Client server → Run server
  place_x1 p c =
      send_pair 1 b'4' p.p4 b'1' p.p1 c
      then_run send_pair 2 b'1' p.p1 b'2' p.p2
      then_run send_pair 3 b'2' p.p2 b'3' p.p3
      then_run send_pair 4 b'3' p.p3 b'4' p.p4

  unfoldable pub place_x2 : Parts → Client server → Run server
  place_x2 p c =
      send_pair 1 b'3' p.p3 b'4' p.p4 c
      then_run send_pair 2 b'4' p.p4 b'1' p.p1
      then_run send_pair 3 b'1' p.p1 b'2' p.p2
      then_run send_pair 4 b'2' p.p2 b'3' p.p3

  unfoldable pub place_x3 : Parts → Client server → Run server
  place_x3 p c =
      send_pair 1 b'2' p.p2 b'3' p.p3 c
      then_run send_pair 2 b'3' p.p3 b'4' p.p4
      then_run send_pair 3 b'4' p.p4 b'1' p.p1
      then_run send_pair 4 b'1' p.p1 b'2' p.p2

  -- One file of a put, with x = md5_hash(filename).
  unfoldable pub put_file : ℕ → Bytes → Client server → Run server
  put_file x file c =
      if x == 0
      then place_x0 (split file) c
      else if x == 1
      then place_x1 (split file) c
      else if x == 2
      then place_x2 (split file) c
      else if x == 3
      then place_x3 (split file) c
      else running c
