-- ===== src/EffectParser/Laws.antt =====
-- What every stack effect that the parser accepts satisfies.
use tails.Prelude.{
  ℕ, zero, suc, ◌+◌, ◌-◌, ◌≤◌, ◌<◌, ◌≡◌, refl, ap, subst, Bool, true, false, not, List, [], ◌∷◌,
  ◌++◌, Option, none, some, ltb, ◌==◌, if◌then◌else◌, length, arith, length-append, if-cases,
}
use tails.TypeSet.{TypeSet, exists, add_all_types, set_input_match}
use tails.Result.{
  ok, guard, guard-eq-ok, too_many_entries, invalid_separator, missing_separator, >>=-eq-ok,
  ok-injective,
}
use tails.StackEffect.{StackEffect, check_not_full, set_max, max_entries, net_growth}
use tails.StackEffect.Laws.{IsValid}
use tails.EffectParser.{
  Parse, finished_entry, matched_entry, output_entry, finish_input, finish_output, end_token,
  start_token, add_character, separator, parse_character, parse_characters, parse_stack_effect,
  add_type_symbol, has_token, is_space,
}

abbrev pub AllExist : List TypeSet → Type 0
AllExist [] = Unit
AllExist (t ∷ ts) = (exists t ≡ true) × AllExist ts

AllExist-append :
    (ts : List TypeSet) (t : TypeSet) → AllExist ts → exists t ≡ true → AllExist (ts ++ t ∷ [])
AllExist-append [] t a e = (e, tt)
AllExist-append (u ∷ ts) t (a, rest) e = (a, AllExist-append ts t rest e)

finished_entry-exists : (t : TypeSet) → exists (finished_entry t) ≡ true
unfolding finished_entry exists add_all_types
finished_entry-exists t = ground arith

set_input_match-exists : (e t : TypeSet) (n : ℕ) → exists (set_input_match e t n) ≡ true
unfolding exists set_input_match
set_input_match-exists e t n = ground arith

matched_entry-exists :
    (text : List ℕ) (names : List (List ℕ)) (ts : List TypeSet) (b n : ℕ) (e : TypeSet)
    → exists e ≡ true
    → exists (matched_entry text names ts b n e) ≡ true
unfolding matched_entry
matched_entry-exists text [] ts b n e h = h
matched_entry-exists text (m ∷ names) [] b n e h = h
matched_entry-exists text (m ∷ names) (t ∷ ts) b n e h = ground (
  arith,
  set_input_match-exists e t (n - 1 - b),
  matched_entry-exists text names ts (b + 1) n e h,
)

output_entry-exists : (b : Bool) (text : List ℕ) (p : Parse) → exists (output_entry b text p) ≡ true
unfolding output_entry
output_entry-exists true text p =
    matched_entry-exists text p.names p.effect.entries 0 p.effect.ins _
      (finished_entry-exists p.current)
output_entry-exists false text p = finished_entry-exists p.current

-- The entries are counted and not empty, and there is room for the token that has begun.
record Inv (p : Parse) : Type 0 where
  counted : length p.effect.entries ≡ p.effect.ins + p.effect.outs
  fits : p.effect.ins + p.effect.outs ≤ max_entries
  room : has_token p.token ≡ true → p.effect.ins + p.effect.outs < max_entries
  all_exist : AllExist p.effect.entries
  fresh : p.effect.max_growth ≡ 0

AllExist-end :
    (b : Bool) (p : Parse) (text : List ℕ)
    → AllExist p.effect.entries
    → AllExist (p.effect.entries ++ output_entry b text p ∷ [])
AllExist-end b p text a = AllExist-append _ _ a (output_entry-exists b text p)

finish_input-Inv :
    (text : List ℕ) (p : Parse) → p.token ≡ some text → Inv p → Inv (finish_input text p)
unfolding finish_input
finish_input-Inv text p e v = record {
  counted =
      ground (arith, v.counted, length-append p.effect.entries (finished_entry p.current ∷ []));
  fits = ground (arith, v.room (ap has_token e));
  room = λ h. cc;
  all_exist = AllExist-append _ _ v.all_exist (finished_entry-exists p.current);
  fresh = v.fresh;
}

finish_output-Inv :
    (text : List ℕ) (p : Parse) → p.token ≡ some text → Inv p → Inv (finish_output text p)
unfolding finish_output
finish_output-Inv text p e v = record {
  counted =
      ground (arith, v.counted, length-append p.effect.entries (output_entry p.named text p ∷ []));
  fits = ground (arith, v.room (ap has_token e));
  room = λ h. cc;
  all_exist = AllExist-end p.named p text v.all_exist;
  fresh = v.fresh;
}

end_token-Inv : (t : Option (List ℕ)) (p : Parse) → p.token ≡ t → Inv p → Inv (end_token t p)
unfolding end_token
end_token-Inv none p e v = v
end_token-Inv (some text) p e v =
    elim p.in_inputs as (λ b. Inv (if b then finish_input text p else finish_output text p)) [
      | true ↦ finish_input-Inv text p e v
      | false ↦ finish_output-Inv text p e v
    ]

start_token-room :
    (t : Option (List ℕ)) (p : Parse) (text : List ℕ)
    → p.token ≡ t
    → Inv p
    → start_token t p ≡ ok text
    → p.effect.ins + p.effect.outs < max_entries
unfolding start_token check_not_full
start_token-room none p text e v h =
    let (_, full, _) = >>=-eq-ok (check_not_full p.effect) (λ _. ok []) h in
    ground
      (arith, guard-eq-ok (ltb (p.effect.ins + p.effect.outs) max_entries) too_many_entries full)
start_token-room (some x) p text e v h = v.room (ap has_token e)

add_character-Inv : (c : ℕ) (p p' : Parse) → Inv p → add_character c p ≡ ok p' → Inv p'
unfolding add_character
add_character-Inv c p p' v h =
    let (text, begun, h1) = >>=-eq-ok (start_token p.token p) _ h in
    let (entry, _, h2) = >>=-eq-ok (add_type_symbol p.current c) _ h1 in
    subst Inv (ok-injective h2) (record {
      counted = v.counted;
      fits = v.fits;
      room = λ _. start_token-room p.token p text refl v begun;
      all_exist = v.all_exist;
      fresh = v.fresh;
    })

separator-Inv : (cs : List ℕ) (p p' : Parse) → Inv p → separator cs p ≡ ok p' → Inv p'
unfolding separator
separator-Inv cs p p' v h =
    let (_, _, h1) =
      >>=-eq-ok (guard _ invalid_separator) (λ _. ok (record p { in_inputs = false })) h in
    subst Inv (ok-injective h1) (record {
      counted = v.counted;
      fits = v.fits;
      room = v.room;
      all_exist = v.all_exist;
      fresh = v.fresh;
    })

parse_character-Inv :
    (c : ℕ) (cs : List ℕ) (p p' : Parse) (n : ℕ)
    → Inv p
    → parse_character c cs p ≡ ok (n, p')
    → Inv p'
unfolding parse_character
parse_character-Inv c cs p p' n v h =
    if-cases (λ r. r ≡ ok (n, p') → Inv p') (is_space c) {x = ok (0, end_token p.token p)}
      (λ e.
        subst Inv (ap (λ (r : ℕ × Parse). r.1) (ok-injective e)) (end_token-Inv p.token p refl v))
      (if-cases (λ r. r ≡ ok (n, p') → Inv p') (c == b'-')
        (λ e.
          let (q, stepped, done) = >>=-eq-ok (separator cs p) (λ q. ok (2, q)) e in
          subst Inv (ap (λ (r : ℕ × Parse). r.1) (ok-injective done))
            (separator-Inv cs p q v stepped))
        (λ e.
          let (q, stepped, done) = >>=-eq-ok (add_character c p) (λ q. ok (0, q)) e in
          subst Inv (ap (λ (r : ℕ × Parse). r.1) (ok-injective done))
            (add_character-Inv c p q v stepped)))
      h

parse_characters-Inv :
    (skip : ℕ) (cs : List ℕ) (p p' : Parse) → Inv p → parse_characters skip cs p ≡ ok p' → Inv p'
unfolding parse_characters
parse_characters-Inv skip [] p p' v h = subst Inv (ok-injective h) (end_token-Inv p.token p refl v)
parse_characters-Inv (suc skip) (c ∷ cs) p p' v h = parse_characters-Inv skip cs p p' v h
parse_characters-Inv zero (c ∷ cs) p p' v h =
    let ((n, q), one, more) = >>=-eq-ok (parse_character c cs p) _ h in
    parse_characters-Inv n cs q p' (parse_character-Inv c cs p q n v one) more

net_growth-set_max :
    (e : StackEffect)
    → e.ins + e.outs ≤ max_entries
    → net_growth (set_max 0 e) ≤ (set_max 0 e).max_growth
unfolding set_max net_growth
net_growth-set_max e h = omega arith

-- An effect that the parser accepts is valid: its counts describe its entries, of which there are
-- at most eight, its growth covers its net growth, and each of its entries allows some type.
pub parse_stack_effect-IsValid :
    (cs : List ℕ) (e : StackEffect)
    → parse_stack_effect cs ≡ ok e
    → IsValid e × (net_growth e ≤ e.max_growth) × AllExist e.entries
unfolding parse_stack_effect set_max
parse_stack_effect-IsValid cs e h =
    let (p, parsed, h1) = >>=-eq-ok (parse_characters 0 cs _) _ h in
    let (_, _, h2) = >>=-eq-ok (guard (not p.in_inputs) missing_separator) _ h1 in
    let v =
      parse_characters-Inv 0 cs _ p
        (record {
          counted = refl;
          fits = omega arith;
          room = λ h. cc;
          all_exist = tt;
          fresh = refl;
        })
        parsed in
    subst (λ f. IsValid f × (net_growth f ≤ f.max_growth) × AllExist f.entries) (ok-injective h2)
      (
        record { counted = v.counted; fits = v.fits; max_fits = omega arith },
        net_growth-set_max p.effect v.fits,
        v.all_exist,
      )
