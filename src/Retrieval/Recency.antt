-- ===== src/Retrieval/Recency.antt =====
-- The recency of crates/naome-memory-core/src/retrieval.rs.
use naome_memory.Base.{ℕ, ◌-◌, ◌*◌, ◌/◌, ◌≤◌, ◌<◌, min, arith, u128_max, div_floor}
use naome_memory.Fixed.{scale, ratio}
use naome_memory.Fixed.Bounds.{ratio-le}
use naome_memory.Retrieval.Score.{recency_score}

div_mono : (a b d : ℕ) → a ≤ b → 0 < d → a / d ≤ b / d
div_mono a b d h pos = grind (arith, div_floor a d pos, div_floor b d pos)

pub ratio_mono : (m n d : ℕ) → m ≤ n → ratio m d ≤ ratio n d
unfolding ratio
ratio_mono m n d h =
    ground (arith, div_mono (min (m * scale) u128_max) (min (n * scale) u128_max) d)

-- The recency of a memory is at most 1, and a later record that is not in the future is at least as
-- recent.
pub recency_score_mono :
    (as_of_us earlier later horizon_us : ℕ)
    → earlier ≤ later
    → later ≤ as_of_us
    → (recency_score as_of_us earlier horizon_us ≤ recency_score as_of_us later horizon_us)
      × (recency_score as_of_us later horizon_us ≤ scale)
unfolding recency_score
recency_score_mono as_of_us earlier later horizon_us h k =
    let mono =
      ratio_mono (horizon_us - (as_of_us - earlier)) (horizon_us - (as_of_us - later)) horizon_us
        (omega arith) in
    (ground (arith, mono), ground (arith, ratio-le (horizon_us - (as_of_us - later)) horizon_us))
