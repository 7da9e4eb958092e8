-- ===== src/Service/Groups/Order.antt =====
-- The comparisons of the two sorts of `ListGrouped` (internal/service/container.go).
use wingstation.Prelude.{
  Str, str_lt_irrefl, str_lt_trans, str_lt_negtrans, str_lt_antisymm, true, false, ◌≡◌, arith,
}
use wingstation.Prelude.Int.{ℤ}
use wingstation.Go.Runtime.{IsOrder}
use wingstation.Service.Groups.{ranks, container_less, group_less}

ranks_irrefl : (p : ℤ) (n : Str) → ranks p n p n ≡ false
unfolding ranks
ranks_irrefl p n = ground (arith, str_lt_irrefl n)

ranks_trans :
    (p q r : ℤ) (n m o : Str) → ranks p n q m ≡ true → ranks q m r o ≡ true → ranks p n r o ≡ true
unfolding ranks
ranks_trans p q r n m o h k = ground (arith, str_lt_trans n m o)

ranks_negtrans :
    (p q r : ℤ) (n m o : Str)
    → ranks p n q m ≡ false
    → ranks q m r o ≡ false
    → ranks p n r o ≡ false
unfolding ranks
ranks_negtrans p q r n m o h k = ground (arith, str_lt_negtrans n m o)

-- Neither ranks before the other only with equal names.
pub ranks_antisymm : (p q : ℤ) (n m : Str) → ranks p n q m ≡ false → ranks q m p n ≡ false → n ≡ m
unfolding ranks
ranks_antisymm p q n m h k = ground (arith, str_lt_antisymm n m)

ranks-IsOrder :
    {A : Type 0} (priority : A → ℤ) (name : A → Str)
    → IsOrder (λ a b. ranks (priority a) (name a) (priority b) (name b))
ranks-IsOrder p n = record {
  irrefl = λ a. ranks_irrefl (p a) (n a);
  trans = λ a b c. ranks_trans (p a) (p b) (p c) (n a) (n b) (n c);
  negtrans = λ a b c. ranks_negtrans (p a) (p b) (p c) (n a) (n b) (n c);
}

pub container_less-IsOrder : IsOrder container_less
unfolding container_less
container_less-IsOrder = ranks-IsOrder (λ c. c.labels.priority) (λ c. c.name)

pub group_less-IsOrder : IsOrder group_less
unfolding group_less
group_less-IsOrder = ranks-IsOrder (λ g. g.priority) (λ g. g.name)
