-- ===== src/Profiles/Persisting.antt =====
-- The parts of the operations of server/src/profiles.ts, and what can be written and read back.
use misgeret.Base.{
  ℕ, ◌≡◌, refl, sym, ap, subst, ◌∙◌, arith, true, false, Option, none, some, List, ◌∷◌, All,
}
use misgeret.Base.Dict.{get, Distinct}
use misgeret.Text.{Text, text_key}
use misgeret.Profiles.{
  Profile, Entry, file, directory, Disk, Os, Outcome, done, failed, threw, ◌>>=◌, Value, undefined,
  null, structure, string, number,
}
use misgeret.Profiles.Checks.{normalize_name, normalize_color, color_at}
use misgeret.Profiles.Members.{find_id, get as get_profile, or_not_found, require}
use misgeret.Profiles.Requests.{
  color_or_default, make_by, make_dir, name_patch, color_patch, patched,
}
use misgeret.Profiles.Changes.{move_aside}
use misgeret.Profiles.Storable.{
  IsStorable, IsName, IsPaint, normalize_name-IsName, normalize_color-IsPaint, color_at-IsPaint,
}
use misgeret.Profiles.Reloading.{is_adoptable, is_calm}
use misgeret.Profiles.Durable.{IsAside, All-find_id, put_aside_lem, get-none}

make_by-IsCalm :
    (o : Option Entry) (name : Text) (es worlds : List (Text × Entry)) (ps : List Profile)
    → get name es ≡ o
    → make_by o name es ≡ done worlds
    → Distinct es
    → is_calm ps es ≡ true
    → Distinct worlds × (is_calm ps worlds ≡ true)
unfolding make_by
make_by-IsCalm none name es worlds ps g h d c =
    let e : (name, directory (record { marker = false; database = false; others = false })) ∷ es
        ≡ worlds =
      cc in
    rw (sym e) ((get-none name es g, d), unfold is_calm is_adoptable in ground arith)
make_by-IsCalm (some file) name es worlds ps g h d c = cc
make_by-IsCalm (some (directory w)) name es worlds ps g h d c =
    let e : es ≡ worlds = cc in rw (sym e) (d, c)

pub make_dir-IsCalm :
    (name : Text) (es worlds : List (Text × Entry)) (ps : List Profile)
    → make_dir name es ≡ done worlds
    → Distinct es
    → is_calm ps es ≡ true
    → Distinct worlds × (is_calm ps worlds ≡ true)
unfolding make_dir
make_dir-IsCalm name es worlds ps h d c = make_by-IsCalm (get name es) name es worlds ps refl h d c

pub move_aside-IsAside :
    (os : Os) (id : Text) (d d' : Disk)
    → Distinct d.worlds
    → move_aside os id d ≡ done d'
    → IsAside id d.worlds d'.worlds × (d'.registry ≡ d.registry)
unfolding move_aside
move_aside-IsAside os id d d' u h = put_aside_lem os id (get id d.worlds) d d' refl u h

pub color_or_default-IsPaint :
    (n : ℕ) (v : Value) (c : Text) → color_or_default n v ≡ done c → IsPaint c
unfolding color_or_default
color_or_default-IsPaint n undefined c h =
    let e : color_at n ≡ c = cc in subst IsPaint e (color_at-IsPaint n)
color_or_default-IsPaint n null c h =
    let e : color_at n ≡ c = cc in subst IsPaint e (color_at-IsPaint n)
color_or_default-IsPaint n (string s) c h = normalize_color-IsPaint (string s) c h
color_or_default-IsPaint n structure c h = normalize_color-IsPaint structure c h
color_or_default-IsPaint n (number k) c h = normalize_color-IsPaint (number k) c h

pub patched-IsStorable :
    (name color : Option Text)
    → ((n : Text) → name ≡ some n → IsName n)
    → ((c : Text) → color ≡ some c → IsPaint c)
    → (p : Profile) → IsStorable p
    → IsStorable (patched name color p)
unfolding patched
patched-IsStorable none none f g p h = h
patched-IsStorable none (some c) f g p h = record {
  uuid = h.uuid;
  named = h.named;
  painted = g c refl;
}
patched-IsStorable (some n) none f g p h = record {
  uuid = h.uuid;
  named = f n refl;
  painted = h.painted;
}
patched-IsStorable (some n) (some c) f g p h = record {
  uuid = h.uuid;
  named = f n refl;
  painted = g c refl;
}

pub name_patch-IsName :
    (v : Value) (o : Option Text) → name_patch v ≡ done o → (n : Text) → o ≡ some n → IsName n
unfolding name_patch
name_patch-IsName undefined o h n e = cc
name_patch-IsName null o h n e = unfold normalize_name in cc
name_patch-IsName structure o h n e = unfold normalize_name in cc
name_patch-IsName (number k) o h n e = unfold normalize_name in cc
name_patch-IsName (string s) o h n e = named (normalize_name (string s)) refl h
  where
    named :
        (r : Outcome Text)
        → normalize_name (string s) ≡ r
        → (r >>= λ name. done (some name)) ≡ done o
        → IsName n
    named (done t) k h = let q : t ≡ n = cc in normalize_name-IsName (string s) n (k ∙ ap done q)
    named (failed x) k h = cc
    named threw k h = cc

pub color_patch-IsPaint :
    (v : Value) (o : Option Text) → color_patch v ≡ done o → (n : Text) → o ≡ some n → IsPaint n
unfolding color_patch
color_patch-IsPaint undefined o h n e = cc
color_patch-IsPaint null o h n e = unfold normalize_color in cc
color_patch-IsPaint structure o h n e = unfold normalize_color in cc
color_patch-IsPaint (number k) o h n e = unfold normalize_color in cc
color_patch-IsPaint (string s) o h n e = named (normalize_color (string s)) refl h
  where
    named :
        (r : Outcome Text)
        → normalize_color (string s) ≡ r
        → (r >>= λ name. done (some name)) ≡ done o
        → IsPaint n
    named (done t) k h = let q : t ≡ n = cc in normalize_color-IsPaint (string s) n (k ∙ ap done q)
    named (failed x) k h = cc
    named threw k h = cc

pub require-IsStorable :
    (id : Text) (ps : List Profile) (p : Profile)
    → All IsStorable ps
    → require (string id) ps ≡ done p
    → IsStorable p
unfolding require or_not_found get_profile
require-IsStorable id ps p h r = found (find_id id ps) refl (ground arith)
  where
    found : (o : Option Profile) → find_id id ps ≡ o → o ≡ some p → IsStorable p
    found o k e = All-find_id IsStorable id ps p h (k ∙ e)
