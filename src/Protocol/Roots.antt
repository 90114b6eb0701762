-- ===== src/Protocol/Roots.antt =====
-- The root functions at the end of RankingServer/include/RANKING_PROTOCOL_generated.h.
use ranking_server.Base.{ℕ, List, none, Bool}
use ranking_server.Outside.Flat.{FlatBuffers}
use ranking_server.Outside.Verifier.{Verifier, Roots}
use ranking_server.Protocol.Envelope.{verify}

module _ (fb : FlatBuffers) (v : Verifier fb) (r : Roots fb v) where
  -- GetRANKING_PROTOCOL and GetSizePrefixedRANKING_PROTOCOL
  abbrev pub get_ranking_protocol : List ℕ → fb.Table
  get_ranking_protocol buf = fb.root buf

  abbrev pub get_size_prefixed_ranking_protocol : List ℕ → fb.Table
  get_size_prefixed_ranking_protocol buf = r.size_prefixed_root buf

  -- VerifyRANKING_PROTOCOLBuffer and VerifySizePrefixedRANKING_PROTOCOLBuffer; the identifier is null.
  abbrev pub verify_ranking_protocol_buffer : List ℕ → v.State → Bool
  verify_ranking_protocol_buffer buf s = r.verify_buffer (verify fb v) none buf s

  abbrev pub verify_size_prefixed_ranking_protocol_buffer : List ℕ → v.State → Bool
  verify_size_prefixed_ranking_protocol_buffer buf s =
      r.verify_size_prefixed_buffer (verify fb v) none buf s

  -- FinishRANKING_PROTOCOLBuffer and FinishSizePrefixedRANKING_PROTOCOLBuffer
  abbrev pub finish_ranking_protocol_buffer : r.Builder → r.Offset → r.Builder
  finish_ranking_protocol_buffer builder root = r.finish builder root

  abbrev pub finish_size_prefixed_ranking_protocol_buffer : r.Builder → r.Offset → r.Builder
  finish_size_prefixed_ranking_protocol_buffer builder root = r.finish_size_prefixed builder root
