-- ===== src/Proxy/Annotate/Tests.antt =====
-- A run of the annotation and an instance of its theorem, with a parser of two texts.
use ashat_coding_agent.Base.{
  ◌≡◌, refl, ◌⊎◌, Bool, true, false, Option, some, none, All, arith, if◌then◌else◌, subst,
}
use ashat_coding_agent.Base.Text.{codes, text_eq}
use ashat_coding_agent.Json.{
  Value, null, boolean, number, array, object, member, no_members, string,
}
use ashat_coding_agent.Proxy.{Bytes}
use ashat_coding_agent.Proxy.Annotate.{
  is_break, find, next_line, trim_end, parts, with_lane, annotate_event,
}
use ashat_coding_agent.Proxy.Annotate.Reading.{IsExempt, IsAnnotated, annotate_event-reads}

abbrev valid : Bytes → Bool
valid e = true

abbrev lane_object : Value
lane_object = object (member (codes "lane") (string (codes "1")) no_members)

-- Reads `{}` and `{"lane":"1"}`.
abbrev read : Bytes → Option Value
read t =
    if text_eq t (codes "{}")
    then some (object no_members)
    else if text_eq t (codes "{\"lane\":\"1\"}")
    then some lane_object
    else none

abbrev print : Value → Bytes
print (object no_members) = codes "{}"
print v = codes "{\"lane\":\"1\"}"

prints : (v : Value) → All (λ c. is_break c ≡ false) (print v)
prints null = ground arith
prints (boolean b) = ground arith
prints (number t) = ground arith
prints (string t) = ground arith
prints (array vs) = ground arith
prints (object no_members) = ground arith
prints (object (member k v ms)) = ground arith

abbrev IsStable : Value → Type 0
IsStable v = read (print (with_lane (codes "1") v)) ≡ some (with_lane (codes "1") v)

choice :
    (a b : Bool) (v : Value)
    → (if a then some (object no_members) else if b then some lane_object else none) ≡ some v
    → IsStable v
choice true b v e = let same : object no_members ≡ v = cc in subst IsStable same refl
choice false true v e = let same : lane_object ≡ v = cc in subst IsStable same refl
choice false false v e = cc

back : (t : Bytes) (v : Value) → read t ≡ some v → IsStable v
back t v e = choice (text_eq t (codes "{}")) (text_eq t (codes "{\"lane\":\"1\"}")) v e

abbrev sent : Bytes
sent = codes "data: {}\n\n"

sent_annotated :
    annotate_event valid read print (codes "1") sent ≡ codes "data: {\"lane\":\"1\"}\n\n"
unfolding annotate_event parts find next_line trim_end
sent_annotated = refl

annotate_event-reads_example :
    (IsExempt valid read sent × (annotate_event valid read print (codes "1") sent ≡ sent))
    ⊎ IsAnnotated read (codes "1") sent (annotate_event valid read print (codes "1") sent)
annotate_event-reads_example = annotate_event-reads valid read print (codes "1") prints back sent
