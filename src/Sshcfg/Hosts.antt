-- ===== src/Sshcfg/Hosts.antt =====
-- src/sshcfg.rs: which names `parse_hosts` lists.
use cargo_remote.Prelude.{
  ◌≡◌, refl, sym, ap, ◌∙◌, subst, List, [], ◌∷◌, ◌++◌, Text, codes, Bool, true, false, not, ◌&&◌,
  ◌||◌, if◌then◌else◌, text_eq, text_eq→eq, text_eq_refl, Bool-cases, inl, inr, arith, or_false,
}
use cargo_remote.Sshcfg.{
  contains, is_pattern, add_host, add_hosts, same_keyword, host_line, words_of, hosts_from, lines,
  parse_hosts,
}

-- A name that one of the lines declares: a `Host` line has it, and it is no pattern.
unfoldable pub line_declares : List Text → Text → Bool
line_declares [] h = false
line_declares (kw ∷ ws) h = same_keyword kw (codes "host") && (contains ws h && not (is_pattern h))

unfoldable pub declares : List Text → Text → Bool
unfolding line_declares
declares [] h = false
declares (line ∷ lines) h = line_declares (words_of line) h || declares lines h

unfoldable pub Distinct : List Text → Type 0
Distinct [] = Unit {0}
Distinct (h ∷ hosts) = (contains hosts h ≡ false) × Distinct hosts

contains-append :
    (hosts : List Text) (w h : Text)
    → contains (hosts ++ w ∷ []) h ≡ (contains hosts h || text_eq w h)
unfolding contains
contains-append [] w h = ground arith
contains-append (g ∷ hosts) w h = ground (arith, contains-append hosts w h)

contains-add_host :
    (hosts : List Text) (w h : Text)
    → contains (add_host hosts w) h ≡ (contains hosts h || (text_eq w h && not (is_pattern w)))
unfolding add_host
contains-add_host hosts w h = go (is_pattern w) (contains hosts w) (text_eq w h) refl refl refl
  where
    go :
        (p c e : Bool)
        → is_pattern w ≡ p
        → contains hosts w ≡ c
        → text_eq w h ≡ e
        → contains (if p || c then hosts else hosts ++ w ∷ []) h
          ≡ (contains hosts h || (e && not p))
    go true c e hp hc he = ground arith
    go false true false hp hc he = ground arith
    go false true true hp hc he =
        let here : contains hosts h ≡ true =
          subst (λ v. contains hosts v ≡ true) (text_eq→eq w h he) hc in
        rw here refl
    go false false e hp hc he = contains-append hosts w h ∙ rw he (ground arith)

same_pattern :
    (w h : Text) → (text_eq w h && not (is_pattern w)) ≡ (text_eq w h && not (is_pattern h))
same_pattern w h = go (text_eq w h) refl
  where
    go : (e : Bool) → text_eq w h ≡ e → (e && not (is_pattern w)) ≡ (e && not (is_pattern h))
    go false he = refl
    go true he = ap (λ v. not (is_pattern v)) (text_eq→eq w h he)

spread : (a e b n : Bool) → ((a || (e && n)) || (b && n)) ≡ (a || ((e || b) && n))
spread true e b n = refl
spread false true b true = refl
spread false true true false = refl
spread false true false false = refl
spread false false b n = refl

contains-add_hosts :
    (hosts ws : List Text) (h : Text)
    → contains (add_hosts hosts ws) h ≡ (contains hosts h || (contains ws h && not (is_pattern h)))
unfolding add_hosts
contains-add_hosts hosts [] h = ground arith
contains-add_hosts hosts (w ∷ ws) h =
    contains-add_hosts (add_host hosts w) ws h
    ∙ ap (λ c. c || (contains ws h && not (is_pattern h)))
        (contains-add_host hosts w h ∙ ap (λ e. contains hosts h || e) (same_pattern w h))
    ∙ spread (contains hosts h) (text_eq w h) (contains ws h) (not (is_pattern h))

contains-host_line :
    (hosts ws : List Text) (h : Text)
    → contains (host_line hosts ws) h ≡ (contains hosts h || line_declares ws h)
unfolding host_line line_declares
contains-host_line hosts [] h = ground arith
contains-host_line hosts (kw ∷ ws) h = elim (Bool-cases (same_keyword kw (codes "host"))) [
  | inl e ↦ rw e (contains-add_hosts hosts ws h)
  | inr e ↦ rw e (ground arith)
]

contains-hosts_from :
    (hosts ls : List Text) (h : Text)
    → contains (hosts_from hosts ls) h ≡ (contains hosts h || declares ls h)
unfolding hosts_from declares
contains-hosts_from hosts [] h = ground arith
contains-hosts_from hosts (line ∷ ls) h =
    contains-hosts_from (host_line hosts (words_of line)) ls h
    ∙ ap (λ c. c || declares ls h) (contains-host_line hosts (words_of line) h)
    ∙ or_assoc (contains hosts h) (line_declares (words_of line) h) (declares ls h)
  where
    or_assoc : (a b c : Bool) → ((a || b) || c) ≡ (a || (b || c))
    or_assoc true b c = refl
    or_assoc false b c = refl

text_eq_sym : (s t : Text) → text_eq s t ≡ false → text_eq t s ≡ false
text_eq_sym s t h = elim (Bool-cases (text_eq t s)) [
  | inr e ↦ e
  | inl e ↦
      absurd (differ (sym (ap (λ v. text_eq v t) (sym (text_eq→eq t s e)) ∙ text_eq_refl t) ∙ h))
]
  where
    differ : true ≡ false → ⊥
    differ h = cc

append-Distinct :
    (hosts : List Text) (w : Text)
    → Distinct hosts
    → contains hosts w ≡ false
    → Distinct (hosts ++ w ∷ [])
unfolding Distinct contains
append-Distinct [] w d h = (refl, tt)
append-Distinct (g ∷ hosts) w (fresh, d) h =
    let (other, more) = or_false (text_eq g w) (contains hosts w) h in
    (
      contains-append hosts w g ∙ rw (fresh, text_eq_sym g w other) refl,
      append-Distinct hosts w d more,
    )

add_host-Distinct : (hosts : List Text) (w : Text) → Distinct hosts → Distinct (add_host hosts w)
unfolding add_host
add_host-Distinct hosts w d = elim (Bool-cases (is_pattern w || contains hosts w)) [
  | inl e ↦ rw e d
  | inr e ↦ rw e (append-Distinct hosts w d ((or_false (is_pattern w) (contains hosts w) e).1))
]

add_hosts-Distinct : (hosts ws : List Text) → Distinct hosts → Distinct (add_hosts hosts ws)
unfolding add_hosts
add_hosts-Distinct hosts [] d = d
add_hosts-Distinct hosts (w ∷ ws) d =
    add_hosts-Distinct (add_host hosts w) ws (add_host-Distinct hosts w d)

host_line-Distinct : (hosts ws : List Text) → Distinct hosts → Distinct (host_line hosts ws)
unfolding host_line
host_line-Distinct hosts [] d = d
host_line-Distinct hosts (kw ∷ ws) d = elim (Bool-cases (same_keyword kw (codes "host"))) [
  | inl e ↦ rw e (add_hosts-Distinct hosts ws d)
  | inr e ↦ rw e d
]

hosts_from-Distinct : (hosts ls : List Text) → Distinct hosts → Distinct (hosts_from hosts ls)
unfolding hosts_from
hosts_from-Distinct hosts [] d = d
hosts_from-Distinct hosts (line ∷ ls) d =
    hosts_from-Distinct (host_line hosts (words_of line)) ls
      (host_line-Distinct hosts (words_of line) d)

-- For every text of a configuration: `parse_hosts` lists exactly the names that some `Host` line
-- declares and that are no patterns, and none of them twice.
pub parse_hosts-Distinct :
    (text : Text)
    → ((h : Text) → contains (parse_hosts text) h ≡ declares (lines text) h)
      × Distinct (parse_hosts text)
unfolding parse_hosts Distinct
parse_hosts-Distinct text =
    (contains-hosts_from [] (lines text), hosts_from-Distinct [] (lines text) tt)
