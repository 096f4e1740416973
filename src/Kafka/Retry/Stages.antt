-- ===== src/Kafka/Retry/Stages.antt =====
-- The stages of a configuration that the constructor accepts: their topics are distinct.
use kafka_nest_playground.Prelude.{
  ℕ, zero, suc, String, ◌≡◌, refl, true, false, subst, Bool-cases, Option-cases, inl, inr, Option,
  List, [], ◌∷◌, map, none, some, get_elem?, eq_refl, arith,
}
use kafka_nest_playground.Prelude.Text.{is_empty}
use kafka_nest_playground.Prelude.Decimal.{All}
use kafka_nest_playground.Prelude.Tx.{ok}
use kafka_nest_playground.Kafka.Retry.Policy.{
  KafkaRetryStage, KafkaRetryRouteConfig, includes, is_retry_topic, position, next_stage_index,
  find_duplicate, assert_valid_config,
}

abbrev pub topics : List KafkaRetryStage → List String
topics stages = map (λ (s : KafkaRetryStage). s.topic) stages

abbrev text_or : String → Option String → String
text_or default none = default
text_or default (some t) = t

-- Every stage has a topic.
abbrev pub HasNamedStages : KafkaRetryRouteConfig → Type 0
HasNamedStages config = All (λ (t : String). is_empty t ≡ false) (topics config.stages)

find_duplicate_named :
    (seen values : List String) (t : String)
    → All (λ (v : String). is_empty v ≡ false) values
    → find_duplicate seen values ≡ some t
    → is_empty t ≡ false
unfolding find_duplicate
find_duplicate_named seen [] t named h = cc
find_duplicate_named seen (v ∷ values) t (own, named) h = elim (Bool-cases (includes seen v)) [
  | inl e ↦
      let found : some v ≡ some t = rw⁻¹ h (rw e refl) in
      subst (λ (o : Option String). is_empty (text_or v o) ≡ false) found own
  | inr e ↦ find_duplicate_named (v ∷ seen) values t named (rw⁻¹ h (rw e refl))
]

-- A configuration that the constructor accepts has no duplicate, if every stage has a topic.
pub valid-distinct :
    (config : KafkaRetryRouteConfig)
    → assert_valid_config config ≡ ok tt
    → HasNamedStages config
    → find_duplicate [] (topics config.stages) ≡ none
unfolding assert_valid_config
valid-distinct config h named = elim (Option-cases (find_duplicate [] (topics config.stages))) [
  | inl is_none ↦ is_none
  | inr (t, is_t) ↦
      let has_text : is_empty t ≡ false =
        find_duplicate_named [] (topics config.stages) t named is_t in
      absurd (ground arith)
]

-- A stage of a list with no duplicate is found at its own place.
pub position-get_elem? :
    (seen : List String) (stages : List KafkaRetryStage) (i : ℕ) (s : KafkaRetryStage)
    → find_duplicate seen (topics stages) ≡ none
    → get_elem? stages i ≡ some s
    → (includes seen s.topic ≡ false)
      × (position stages s.topic ≡ i)
      × (is_retry_topic stages s.topic ≡ true)
unfolding find_duplicate position
position-get_elem? seen [] i s d h = cc
position-get_elem? seen (x ∷ xs) zero s d h = ground (arith, eq_refl s.topic)
position-get_elem? seen (x ∷ xs) (suc i) s d h =
    ground (arith, position-get_elem? (x.topic ∷ seen) xs i s)

pub next_stage_index-get_elem? :
    (stages : List KafkaRetryStage) (i : ℕ) (s : KafkaRetryStage)
    → find_duplicate [] (topics stages) ≡ none
    → get_elem? stages i ≡ some s
    → next_stage_index stages s.topic ≡ suc i
unfolding next_stage_index
next_stage_index-get_elem? stages i s d h = ground (arith, position-get_elem? [] stages i s d h)

abbrev pub drop {ℓ} : {A : Type ℓ} → ℕ → List A → List A
drop zero xs = xs
drop (suc n) [] = []
drop (suc n) (x ∷ xs) = drop n xs

pub get_elem?-drop_nil {ℓ} :
    {A : Type ℓ} (i : ℕ) (xs : List A) → drop i xs ≡ [] → get_elem? xs i ≡ none
get_elem?-drop_nil zero [] h = refl
get_elem?-drop_nil zero (x ∷ xs) h = cc
get_elem?-drop_nil (suc i) [] h = refl
get_elem?-drop_nil (suc i) (x ∷ xs) h = get_elem?-drop_nil i xs h

pub get_elem?-drop_cons {ℓ} :
    {A : Type ℓ} (i : ℕ) (xs : List A) (y : A) (ys : List A)
    → drop i xs ≡ y ∷ ys
    → (get_elem? xs i ≡ some y) × (drop (suc i) xs ≡ ys)
get_elem?-drop_cons zero [] y ys h = cc
get_elem?-drop_cons zero (x ∷ xs) y ys h = (cc, cc)
get_elem?-drop_cons (suc i) [] y ys h = cc
get_elem?-drop_cons (suc i) (x ∷ xs) y ys h = get_elem?-drop_cons i xs y ys h
