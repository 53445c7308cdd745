-- ===== src/Dfs/Service/Breaks.antt =====
-- Puts of PA4/server/dfs.c that break off.
use native.Mathlib.Decide.{dec_lt}
use network_systems.Prelude.{
  sym, ℕ, refl, Option, some, suc, ◌-◌, ◌<◌, ◌≤◌, ◌≡◌, ◌∙◌, ap, [], ◌∷◌, ◌++◌, true, false, none,
  arith, length, drop, join, lt→ltb, ltb, append_assoc,
}
use network_systems.CString.{
  Bytes, codes, cstr, cstr-append, decimal, is_digit, pos, contains, contains_prefix, elem,
}
use network_systems.Stream.{Segments, recv, read_rest, bufsize}
use network_systems.Stream.Laws.{read_rest_all, AllFull, recv_first, read_rest_hangs}
use network_systems.Dfc.Messages.{put_packet, IsPlainName}
use network_systems.Dfs.Files.{Shell}
use network_systems.Dfs.Request.{
  Result, ok, err, hang, buf_text_short, Memory, buf_text, temp_text, is_done, read_header,
  put_fields, header_length, timestamp_size, Header,
}
use network_systems.Dfs.Request
use network_systems.Dfs.Service.{
  or_hang, receive_rest, Server, closed, round, put, entry_name, path_of,
}
use network_systems.Dfs.Service.Put.{IsPutRequest, round-put}

contains_after : (a s p : Bytes) → contains s p ≡ true → contains (a ++ s) p ≡ true
contains_after [] s p h = h
contains_after (x ∷ a) s p h = ground (arith, contains_after a s p h)

is_done_marker : (line : Bytes) → contains line (codes "put done") ≡ true → is_done line ≡ true
unfolding is_done
is_done_marker line h = rw h (ground arith)

put_packet-append :
    (filename : Bytes) (c size t : ℕ) (rest : Bytes)
    → put_packet filename c size t rest ≡ put_packet filename c size t [] ++ rest
put_packet-append filename c size t rest = simp append_assoc

-- A put is lost, and the session closed, when the part of its chunk in the first segment has the
-- text "put done" before any NUL: the server takes it for the client's end of a put.
pub round-put_packet_marker :
    (sh : Shell) (m : Memory) (s : Server) (filename : Bytes) (c size t : ℕ) (before after : Bytes)
    (segs : Segments)
    → IsPlainName filename
    → is_digit c ≡ true
    → elem 0 before ≡ false
    → length (put_packet filename c size t (before ++ (codes "put done" ++ after))) < bufsize
    → s.inbound ≡ put_packet filename c size t (before ++ (codes "put done" ++ after)) ∷ segs
    → round sh m s ≡ ok (closed (record s { inbound = segs }))
unfolding round
round-put_packet_marker sh m s filename c size t before after segs name digit no_nul short inbound =
    let part = before ++ (codes "put done" ++ after) in
    let packet = put_packet filename c size t part in
    let got : recv bufsize s.inbound ≡ (packet, segs) =
      ap (recv bufsize) inbound ∙ recv_first bufsize packet segs (omega arith) in
    let full : 0 < length packet =
      omega (arith, Request.Put.length-put_packet filename c size t part) in
    let text : buf_text m packet ≡ put_packet filename c size t (cstr part) =
      buf_text_short m packet short
      ∙ Request.Put.cstr-put_packet filename c size t part name digit in
    let marker : is_done (put_packet filename c size t (cstr part)) ≡ true =
      rw
        (
          cstr-append before (codes "put done" ++ after) no_nul,
          put_packet-append filename c size t (before ++ (codes "put done" ++ cstr after)),
        )
        (is_done_marker _ (
          contains_after (put_packet filename c size t []) _ (codes "put done") (
            contains_after before _ (codes "put done")
              (contains_prefix (codes "put done") (cstr after))))) in
    rw (got, text, marker) (ground arith)

put-hangs :
    (s : Server) (filename chunk time buf part : Bytes) (header size : ℕ)
    → length (path_of s.dir (entry_name filename chunk time)) < bufsize
    → header ≤ length buf
    → drop header buf ≡ part
    → read_rest (suc (size - length part)) (size - length part) 0 s.inbound ≡ none
    → put buf header filename chunk (pos size) time s ≡ err hang
unfolding put
put-hangs s filename chunk time buf part header size fit hdr cut e =
    rw (lt→ltb _ _ fit, not_less, cut, e)
  where
    not_less : ltb (length buf) header ≡ false
    not_less = ground arith

Option-hang : (r : Option (Bytes × Segments)) → or_hang r ≡ err hang → r ≡ none
Option-hang none e = refl
Option-hang (some x) e = absurd (cc e)

-- The fault for a loop without end is right: if the fuel of `receive_rest` is not enough, then none
-- is.
pub receive_rest-hang :
    (left fuel : ℕ) (segs : Segments)
    → AllFull segs
    → receive_rest left segs ≡ err hang
    → read_rest fuel left 0 segs ≡ none
receive_rest-hang left fuel segs full e = elim (dec_lt (length (join segs)) left) [
  | yes short ↦ read_rest_hangs fuel left 0 segs full (omega arith)
  | no enough ↦
      let (rest, reads, splits, later) = read_rest_all left segs full (omega arith) in
      absurd (cc (sym reads ∙ Option-hang _ e))
]

-- A put as `IsPutRequest` asks whose stream ends before the whole chunk has come: the model breaks
-- off with the fault for a loop without end, and the loop that reads the rest of the chunk gives no
-- result with any fuel.
pub round-put_packet_hangs :
    (sh : Shell) (m : Memory) (s : Server) (filename : Bytes) (c size t : ℕ) (part : Bytes)
    (segs : Segments)
    → IsPutRequest s.dir filename c size t part
    → s.inbound ≡ put_packet filename c size t part ∷ segs
    → AllFull segs
    → length (join segs) < size - length part
    → (round sh m s ≡ err hang) × ((fuel : ℕ) → read_rest fuel (size - length part) 0 segs ≡ none)
round-put_packet_hangs sh m s filename c size t part segs q inbound full short = (
  round-put sh m s filename c size t part segs (err hang) q inbound (
      put-hangs (record s { inbound = segs }) filename (c ∷ []) (decimal t)
        (put_packet filename c size t part) part (length (put_packet filename c size t [])) size
        q.path_fits (omega (arith, Request.Put.length-put_packet filename c size t part))
        (Request.Put.drop-put_packet filename c size t part)
        (read_rest_hangs (suc (size - length part)) (size - length part) 0 segs full
          (omega arith))),
  λ fuel. read_rest_hangs fuel (size - length part) 0 segs full (omega arith),
)
