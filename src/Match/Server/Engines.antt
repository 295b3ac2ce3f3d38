-- ===== src/Match/Server/Engines.antt =====
-- How an engine gets into the map of the server.
use mai3_broker.Base.{
  ◌≡◌, refl, List, [], ◌∷◌, none, some, eq_iff, ok, err, arith, if◌then◌else◌, ◌⊎◌, inl, inr,
  Option-cases,
}
use mai3_broker.Match.Server.{
  PerpetualKey, Handler, Server, same_key, find_handler, put_handler, get_match_handler,
  set_match_handler, already_there,
}

module _ {H : Type 0} where
  pub find_handler-put_handler :
      (k l : PerpetualKey) (h : H) (hs : List (PerpetualKey × H))
      → find_handler l (put_handler k h hs) ≡ (if same_key k l then some h else find_handler l hs)
  unfolding find_handler put_handler
  find_handler-put_handler k l h [] = refl
  find_handler-put_handler k l h ((j, g) ∷ hs) = ground (
    arith,
    eq_iff k.address l.address,
    eq_iff j.address k.address,
    eq_iff j.address l.address,
    find_handler-put_handler k l h hs,
  )

module _ {C D M T S : Type 0} where
  -- A perpetual without an engine gets one, and no other perpetual's engine changes; one that has an
  -- engine is refused, and the server stays as it was.
  pub set_match_handler_lem :
      (k : PerpetualKey) (h : Handler D M T) (s : Server C D M T S)
      → ((find_handler k s.match_handler_map ≡ none)
          × ((set_match_handler k h s).0 ≡ ok tt)
          × ((l : PerpetualKey)
              → get_match_handler l (set_match_handler k h s).1
                ≡ (if same_key k l then some h else get_match_handler l s)))
        ⊎ (((g : Handler D M T) × (find_handler k s.match_handler_map ≡ some g))
            × ((set_match_handler k h s).0 ≡ err already_there)
            × ((set_match_handler k h s).1 ≡ s))
  unfolding set_match_handler
  set_match_handler_lem k h s = elim (Option-cases (find_handler k s.match_handler_map)) [
    | inl free ↦ inl (
      free,
      ground arith,
      λ l. ground (arith, find_handler-put_handler k l h s.match_handler_map),
    )
    | inr (g, there) ↦ inr ((g, there), ground arith, ground arith)
  ]
