-- ===== src/Ether/Packet.antt =====
-- rpkt/src/ether/packet.rs: `EtherPacket` over any buffer.
use rpkt.Base.{ℕ, leb, if◌then◌else◌, List, Outcome, ok, ◌>>=◌, ◌>>◌, assert, length, ◌⊎◌, inl, inr}
use rpkt.Extern.{Buf}
use rpkt.Traits.{PktMut}
use rpkt.Packet.{put_header}
use rpkt.Ether.Header.{ether_header_len, as_bytes}

module _ (B : Buf) where
  -- `Ok` on the left.
  unfoldable pub parse : B.Buffer → Outcome (B.Buffer ⊎ B.Buffer)
  parse buf = if leb ether_header_len (length (B.chunk buf)) then ok (inl buf) else ok (inr buf)

  unfoldable pub payload : B.Buffer → Outcome B.Buffer
  payload buf = B.advance buf ether_header_len

module _ (P : PktMut) where
  unfoldable pub prepend_header : P.Buffer → List ℕ → Outcome P.Buffer
  prepend_header buf header = do
    assert (leb ether_header_len (P.chunk_headroom buf))
    moved ← P.move_back buf ether_header_len
    bytes ← as_bytes header
    put_header P ether_header_len bytes moved
