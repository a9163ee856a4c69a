-- ===== src/Rules/Compiler/Flags.antt =====
-- What each step of the summary does to its flags and to its list of types.
use fibratus.Prelude.{◌≡◌, refl, ap, ◌∙◌, Bool, true, false, ◌||◌, [], ◌∷◌, ◌++◌, if◌then◌else◌}
use fibratus.Event.Types.{EventType, Category}
use fibratus.Event.Types.Traits.{category}
use fibratus.Event.Types.Names.{includes}
use fibratus.Rules.Compiler.{
  Summary, note_category, is_dns, is_va_map, is_audit_api, note_dns, note_va_map, note_audit_api,
  note_used, note_type,
}

-- The groups of events, and what the summary says of them.
pub data Group : Type 0 where
  proc thread image file network registry mem handle threadpool dns va_map audit_api : Group

unfoldable pub has : Group → Summary → Bool
has Group.proc s = s.has_proc_events
has Group.thread s = s.has_thread_events
has Group.image s = s.has_image_events
has Group.file s = s.has_file_events
has Group.network s = s.has_network_events
has Group.registry s = s.has_registry_events
has Group.mem s = s.has_mem_events
has Group.handle s = s.has_handle_events
has Group.threadpool s = s.has_threadpool_events
has Group.dns s = s.has_dns_events
has Group.va_map s = s.has_va_map_events
has Group.audit_api s = s.has_audit_api_events

-- The categories that make up a group.
unfoldable pub is_category : Group → Category → Bool
is_category Group.proc Category.process = true
is_category Group.thread Category.thread = true
is_category Group.image Category.image = true
is_category Group.file Category.file = true
is_category Group.network Category.net = true
is_category Group.registry Category.registry = true
is_category Group.mem Category.mem = true
is_category Group.handle Category.handle = true
is_category Group.threadpool Category.threadpool = true
is_category _ _ = false

-- Whether a type is of a group.
unfoldable pub is_of : Group → EventType → Bool
is_of Group.dns t = is_dns t
is_of Group.va_map t = is_va_map t
is_of Group.audit_api t = is_audit_api t
is_of g t = is_category g (category t)

has-note_category :
    (g : Group) (c : Category) (s : Summary)
    → has g (note_category c s) ≡ (is_category g c || has g s)
unfolding has note_category is_category
has-note_category Group.proc Category.process s = refl
has-note_category _ Category.process s = refl
has-note_category Group.thread Category.thread s = refl
has-note_category _ Category.thread s = refl
has-note_category Group.image Category.image s = refl
has-note_category _ Category.image s = refl
has-note_category Group.file Category.file s = refl
has-note_category _ Category.file s = refl
has-note_category Group.registry Category.registry s = refl
has-note_category _ Category.registry s = refl
has-note_category Group.network Category.net s = refl
has-note_category _ Category.net s = refl
has-note_category Group.handle Category.handle s = refl
has-note_category _ Category.handle s = refl
has-note_category Group.mem Category.mem s = refl
has-note_category _ Category.mem s = refl
has-note_category Group.proc Category.object s = refl
has-note_category _ Category.object s = refl
has-note_category Group.threadpool Category.threadpool s = refl
has-note_category _ Category.threadpool s = refl
has-note_category Group.proc Category.unknown s = refl
has-note_category _ Category.unknown s = refl

unfoldable pub only_dns : Group → Bool → Bool
only_dns Group.dns b = b
only_dns _ b = false

has-note_dns :
    (g : Group) (b : Bool) (s : Summary) → has g (note_dns b s) ≡ (only_dns g b || has g s)
unfolding has note_dns only_dns
has-note_dns Group.dns true s = refl
has-note_dns Group.dns false s = refl
has-note_dns _ true s = refl
has-note_dns _ false s = refl

unfoldable pub only_va_map : Group → Bool → Bool
only_va_map Group.va_map b = b
only_va_map _ b = false

has-note_va_map :
    (g : Group) (b : Bool) (s : Summary) → has g (note_va_map b s) ≡ (only_va_map g b || has g s)
unfolding has note_va_map only_va_map
has-note_va_map Group.va_map true s = refl
has-note_va_map Group.va_map false s = refl
has-note_va_map _ true s = refl
has-note_va_map _ false s = refl

unfoldable pub only_audit_api : Group → Bool → Bool
only_audit_api Group.audit_api b = b
only_audit_api _ b = false

has-note_audit_api :
    (g : Group) (b : Bool) (s : Summary)
    → has g (note_audit_api b s) ≡ (only_audit_api g b || has g s)
unfolding has note_audit_api only_audit_api
has-note_audit_api Group.audit_api true s = refl
has-note_audit_api Group.audit_api false s = refl
has-note_audit_api _ true s = refl
has-note_audit_api _ false s = refl

-- The four ways in which a type is of a group.
is_of-parts :
    (g : Group) (t : EventType) (b : Bool)
    → (only_audit_api g (is_audit_api t)
        || (only_va_map g (is_va_map t)
            || (only_dns g (is_dns t) || (is_category g (category t) || b))))
      ≡ (is_of g t || b)
unfolding only_audit_api only_va_map only_dns is_category is_of
is_of-parts Group.dns t b = refl
is_of-parts _ t b = refl

has-note_used :
    (g : Group) (b : Bool) (t : EventType) (s : Summary) → has g (note_used b t s) ≡ has g s
unfolding has note_used
has-note_used Group.dns true t s = refl
has-note_used Group.dns false t s = refl
has-note_used _ true t s = refl
has-note_used _ false t s = refl

used-note_category : (c : Category) (s : Summary) → (note_category c s).used_events ≡ s.used_events
unfolding note_category
used-note_category Category.process s = refl
used-note_category Category.thread s = refl
used-note_category Category.image s = refl
used-note_category Category.file s = refl
used-note_category Category.registry s = refl
used-note_category Category.net s = refl
used-note_category Category.handle s = refl
used-note_category Category.mem s = refl
used-note_category Category.object s = refl
used-note_category Category.threadpool s = refl
used-note_category Category.unknown s = refl

used-note_dns : (b : Bool) (s : Summary) → (note_dns b s).used_events ≡ s.used_events
unfolding note_dns
used-note_dns true s = refl
used-note_dns false s = refl

used-note_va_map : (b : Bool) (s : Summary) → (note_va_map b s).used_events ≡ s.used_events
unfolding note_va_map
used-note_va_map true s = refl
used-note_va_map false s = refl

used-note_audit_api : (b : Bool) (s : Summary) → (note_audit_api b s).used_events ≡ s.used_events
unfolding note_audit_api
used-note_audit_api true s = refl
used-note_audit_api false s = refl

used-note_used :
    (b : Bool) (t : EventType) (s : Summary)
    → (note_used b t s).used_events ≡ (if b then s.used_events else s.used_events ++ t ∷ [])
unfolding note_used
used-note_used true t s = refl
used-note_used false t s = refl

-- A type is listed unless it is there, whatever flags are set.
pub used-note_type :
    (t : EventType) (s : Summary)
    → (note_type t s).used_events
      ≡ (if includes t s.used_events then s.used_events else s.used_events ++ t ∷ [])
unfolding note_type
used-note_type t s =
    let same =
      used-note_audit_api (is_audit_api t) _
      ∙ (used-note_va_map (is_va_map t) _
          ∙ (used-note_dns (is_dns t) _ ∙ used-note_category (category t) s)) in
    used-note_used (includes t s.used_events) t _
    ∙ ap (λ l. if includes t s.used_events then l else l ++ t ∷ []) same

pub has-note_type :
    (g : Group) (t : EventType) (s : Summary) → has g (note_type t s) ≡ (is_of g t || has g s)
unfolding note_type
has-note_type g t s =
    has-note_used g (includes t s.used_events) t _
    ∙ (has-note_audit_api g (is_audit_api t) _
        ∙ rw
            (
              has-note_va_map g (is_va_map t) (note_dns (is_dns t) (note_category (category t) s)),
              has-note_dns g (is_dns t) (note_category (category t) s),
              has-note_category g (category t) s,
            )
            (is_of-parts g t (has g s)))
