-- ===== src/Protocol/Envelope.antt =====
-- Table RANKING_PROTOCOL of RankingServer/include/RANKING_PROTOCOL_generated.h, which carries one of
-- the other tables as a union.
use ranking_server.Base.{
  ℕ, ◌≡◌, inl, inr, List, [], ◌∷◌, Option, none, some, ◌>>=◌, ◌==◌, if◌then◌else◌, Bool-cases,
  ==_iff, sym, ◌∙◌,
}
use ranking_server.Outside.Flat.{FlatBuffers}
use ranking_server.Outside.Verifier.{Verifier}
use ranking_server.Protocol.MessageContent
use ranking_server.Protocol.Verify.{verify_message_content}

abbrev pub vt_message_type : ℕ
vt_message_type = 4

abbrev pub vt_content_type : ℕ
vt_content_type = 6

abbrev pub vt_content : ℕ
vt_content = 8

-- A call of the builder, which here adds the offset of a table.
pub data TableCall (Offset : Type 0) : Type 0 where
  add_element : ℕ → ℕ → ℕ → TableCall Offset
  add_offset : ℕ → Offset → TableCall Offset

-- CreateRANKING_PROTOCOL
abbrev pub create : {Offset : Type 0} → ℕ → ℕ → Offset → List (TableCall Offset)
create message_type content_type content =
    add_offset vt_content content
    ∷ add_element vt_message_type message_type 0
    ∷ add_element vt_content_type content_type 0
    ∷ []

module _ (fb : FlatBuffers) (v : Verifier fb) where
  abbrev pub message_type : fb.Table → ℕ
  message_type t = fb.get_field t 8 vt_message_type 0

  abbrev pub content_type : fb.Table → ℕ
  content_type t = fb.get_field t 8 vt_content_type 0

  abbrev pub content : fb.Table → Option fb.Table
  content t = v.get_table t vt_content

  -- `content_as` of the kind `k`: a null pointer where the content is of another kind.
  abbrev pub content_as : ℕ → fb.Table → Option fb.Table
  content_as k t = if content_type t == k then content t else none

  abbrev pub content_as_request_save_score : fb.Table → Option fb.Table
  content_as_request_save_score = content_as MessageContent.request_save_score

  abbrev pub content_as_response_save_score : fb.Table → Option fb.Table
  content_as_response_save_score = content_as MessageContent.response_save_score

  abbrev pub content_as_request_player_ranking : fb.Table → Option fb.Table
  content_as_request_player_ranking = content_as MessageContent.request_player_ranking

  abbrev pub content_as_response_player_ranking : fb.Table → Option fb.Table
  content_as_response_player_ranking = content_as MessageContent.response_player_ranking

  unfoldable pub verify : fb.Table → v.State → Option v.State
  verify t s0 = do
    s1 ← v.table_start t s0
    s2 ← v.field t vt_message_type 4 s1
    s3 ← v.field t vt_content_type 1 s2
    s4 ← v.offset t vt_content s3
    s5 ← verify_message_content fb v (content t) (content_type t) s4
    v.end_table s5

  -- A message can be read as one kind of content at most: where two kinds both find content, they
  -- are the same kind, and what they find is the same.
  pub content_as_unique :
      (j k : ℕ) (t x y : fb.Table)
      → content_as j t ≡ some x
      → content_as k t ≡ some y
      → (j ≡ k) × (x ≡ y)
  content_as_unique j k t x y p q = elim (Bool-cases (content_type t == j)) [
    | inl is_j ↦ elim (Bool-cases (content_type t == k)) [
      | inl is_k ↦
          (sym ((==_iff _ _).0 is_j) ∙ (==_iff _ _).0 is_k, cc (rw is_j at p, rw is_k at q))
      | inr not_k ↦ cc (rw not_k at q)
    ]
    | inr not_j ↦ cc (rw not_j at p)
  ]
