-- ===== src/Resolve/Exclusions.antt =====
-- The exclusions of an and-set (src/path_resolution.c).
use tagsistant.Base.{ℕ, ◌≡◌, ◌≢◌, refl, Text, Option, some, Bool, true, ◌==◌, if◌then◌else◌, arith}
use tagsistant.Sql.{World}
use tagsistant.Sql.Engine.{Engine}
use tagsistant.Query.{AndTag, AndNode, null, node}
use tagsistant.Resolve.{
  check_node, FirstStep, guessed, break_lookup, first_step, negated_matches, second_step,
  guess_inode_from_and_set,
}
use tagsistant.Resolve.Guess.{is_ordinary, first_step_break}

step_excludes :
    (E : Engine) (t t' : AndTag) (r r' n' x x' : AndNode) (i : ℕ) (name : Text) (w : World)
    (s : FirstStep)
    → is_ordinary (node t r (node t' r' n' x') x) ≡ true
    → i ≢ 0
    → first_step E true (node t r (node t' r' n' x') x) 0 name w ≡ s
    → (elim s as (λ z. Option ℕ) [
      | break_lookup inode ↦ some inode
      | guessed inode ↦ second_step E true (node t r (node t' r' n' x') x) inode name w
    ])
      ≡ some i
    → check_node E true t' r' name w ≡ 0
unfolding second_step negated_matches
step_excludes E t t' r r' n' x x' i name w (break_lookup j) o ne e h =
    ground (arith, h, first_step_break E (node t r (node t' r' n' x') x) 0 j name w o e)
step_excludes E t t' r r' n' x x' i name w (guessed j) o ne e h = ground (arith, h)

-- The exclusions of an object: of the first tag only, and of these the first one only.
pub guess-excludes :
    (E : Engine) (t t' : AndTag) (r r' n' x x' : AndNode) (i : ℕ) (name : Text) (w : World)
    → is_ordinary (node t r (node t' r' n' x') x) ≡ true
    → guess_inode_from_and_set E true (node t r (node t' r' n' x') x) name w ≡ some i
    → i ≢ 0
    → check_node E true t' r' name w ≡ 0
unfolding guess_inode_from_and_set
guess-excludes E t t' r r' n' x x' i name w o h ne =
    let c = node t r (node t' r' n' x') x in
    step_excludes E t t' r r' n' x x' i name w (first_step E true c 0 name w) o ne refl h

-- The tags of an and-set, without what they exclude.
abbrev without_exclusions : AndNode → AndNode
without_exclusions null = null
without_exclusions (node t related negated next) = node t related null (without_exclusions next)

-- The and-set with the first exclusion of its first tag, and no other one: the exclusions of a tag
-- are a chain along `negated`.
abbrev pub first_exclusion_only : AndNode → AndNode
first_exclusion_only null = null
first_exclusion_only (node t related negated next) =
    node t related (without_exclusions negated) (without_exclusions next)

first_step-without_exclusions :
    (E : Engine) (conn : Bool) (c : AndNode) (guess : ℕ) (name : Text) (w : World)
    → first_step E conn (without_exclusions c) guess name w ≡ first_step E conn c guess name w
unfolding first_step
first_step-without_exclusions E conn null guess name w = refl
first_step-without_exclusions E conn (node t r n x) guess name w =
    let guess' = if guess == 0 then check_node E conn t r name w else guess in
    ground (arith, first_step-without_exclusions E conn x guess' name w)

negated_matches-without_exclusions :
    (E : Engine) (conn : Bool) (c : AndNode) (name : Text) (w : World)
    → negated_matches E conn (without_exclusions c) name w ≡ negated_matches E conn c name w
unfolding negated_matches
negated_matches-without_exclusions E conn null name w = refl
negated_matches-without_exclusions E conn (node t r n x) name w =
    ground (arith, negated_matches-without_exclusions E conn x name w)

-- The inode that an and-set gives for a name does not depend on what its second and later tags
-- exclude, nor on what its first tag excludes beyond the first exclusion.
pub guess-ignores :
    (E : Engine) (conn : Bool) (c : AndNode) (name : Text) (w : World)
    → guess_inode_from_and_set E conn c name w
      ≡ guess_inode_from_and_set E conn (first_exclusion_only c) name w
unfolding guess_inode_from_and_set first_step second_step
guess-ignores E conn null name w = refl
guess-ignores E conn (node t r n x) name w =
    let single = check_node E conn t r name w in
    ground (
      arith,
      first_step-without_exclusions E conn x single name w,
      negated_matches-without_exclusions E conn n name w,
    )
