-- ===== src/ArticleOrder/Tests.antt =====
-- Runs of utils/article-order.ts on a section of three articles.
use zendesk_mcp_server.Base.{
  ℕ, ◌≡◌, refl, true, false, some, List, [], ◌∷◌, number_key, text_key, ok, err,
}
use zendesk_mcp_server.Base.Int.{pos, ◌+ℤ◌}
use zendesk_mcp_server.ArticleOrder.{
  after, OrderedArticle, has_position_inversion, reference_missing, arrange_desired_order,
  compute_position_writes, is_placed_as_requested,
}
use zendesk_mcp_server.ArticleOrder.Applied.{IsUnique, apply_writes}
use zendesk_mcp_server.ArticleOrder.Arrange.{arrange-IsPlaced}
use zendesk_mcp_server.ArticleOrder.Settled.{IsSettled, writes-IsSettled}

abbrev article : ℕ → ℕ → OrderedArticle
article id position = record { id = id; position = pos position }

-- articles 1 and 3 share a position with their neighbour, as Zendesk creates them
abbrev shown : List OrderedArticle
shown = article 1 0 ∷ article 2 0 ∷ article 3 0 ∷ []

abbrev wanted : List OrderedArticle
wanted = article 1 0 ∷ article 3 0 ∷ article 2 0 ∷ []

shown-wanted : arrange_desired_order shown 3 after (some 1) ≡ ok wanted
unfolding arrange_desired_order
shown-wanted = refl

missing_reference : arrange_desired_order shown 3 after (some 9) ≡ err (reference_missing (some 9))
unfolding arrange_desired_order
missing_reference = refl

arrange-IsPlaced_example : is_placed_as_requested wanted 3 after (some 1) ≡ true
arrange-IsPlaced_example = arrange-IsPlaced shown 3 after (some 1) wanted shown-wanted

wanted-IsUnique : IsUnique wanted
wanted-IsUnique = ((refl, (refl, tt)), ((refl, tt), (tt, tt)))

-- the cascade renumbers the moved article and the one that it meets
wanted-writes :
    compute_position_writes wanted 3 false
    ≡ (record { id = 3; position = pos 1 }) ∷ (record { id = 2; position = pos 2 }) ∷ []
unfolding compute_position_writes ◌+ℤ◌
wanted-writes = refl

others-sorted : has_position_inversion (article 1 0 ∷ article 2 0 ∷ []) ≡ false
unfolding has_position_inversion
others-sorted = refl

writes-IsSettled_example :
    IsSettled
      (article 1 0 ∷ [])
      (article 3 0)
      (article 2 0 ∷ [])
      (apply_writes (compute_position_writes wanted 3 false) wanted)
writes-IsSettled_example =
    writes-IsSettled (article 1 0 ∷ []) (article 3 0) (article 2 0 ∷ []) wanted-IsUnique
      others-sorted
