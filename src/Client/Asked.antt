-- ===== src/Client/Asked.antt =====
-- What a request and an action ask of a server, in one vocabulary.
use observability.Base.{ℕ, List, [], ◌∷◌, Option, none, some, Bool, true, false, Text}
use observability.Client.Request.{
  ListOptions, Verb, get, post, put, delete, patch, Setter, in_namespace, of_resource, of_name,
  sub_resource, get_params, list_params, with_timeout, object_body, options_body, bytes_body,
  Request, Error, Rest,
}
use observability.Client.Fake.{
  Action, get_action, list_action, watch_action, create_action, update_action,
  update_subresource_action, delete_action, delete_collection_action, patch_subresource_action,
  SinkList, Returned, an_object, a_list, Tracker,
}

-- A selection of resources.
pub record Selection : Type 0 where
  pub labels : Text
  pub fields : Text

-- What is asked: the verb of the API, where the resource is, and what it comes with.
pub record Asked (T : Type 0) : Type 0 where
  pub verb : Verb
  pub watches : Bool
  pub ns : Text
  pub resource : Text
  pub name : Option Text
  pub subresources : List Text
  pub selection : Option Selection
  pub object : Option T
  pub bytes : Option (List ℕ)

-- Nothing but the verb and the resource.
abbrev pub plain : {T : Type 0} → Verb → Text → Text → Asked T
plain verb resource ns = record {
  verb = verb;
  watches = false;
  ns = ns;
  resource = resource;
  name = none;
  subresources = [];
  selection = none;
  object = none;
  bytes = none;
}

abbrev pub selected : ListOptions → Option Selection
selected opts = some (record { labels = opts.label_selector; fields = opts.field_selector })

module _ {T : Type 0} where
  abbrev asked_by_setter : Setter T → Asked T → Asked T
  asked_by_setter (in_namespace ns) a = record a { ns = ns }
  asked_by_setter (of_resource r) a = record a { resource = r }
  asked_by_setter (of_name n) a = record a { name = some n }
  asked_by_setter (sub_resource s) a = record a { subresources = s }
  asked_by_setter (get_params g) a = a
  asked_by_setter (list_params l) a = record a { watches = l.watch; selection = selected l }
  asked_by_setter (with_timeout t) a = a
  asked_by_setter (object_body t) a = record a { object = some t }
  asked_by_setter (options_body o) a = a
  asked_by_setter (bytes_body b) a = record a { bytes = some b }

  abbrev asked_by_setters : List (Setter T) → Asked T → Asked T
  asked_by_setters [] a = a
  asked_by_setters (s ∷ ss) a = asked_by_setters ss (asked_by_setter s a)

  -- What a request asks: a later call of the builder overrides an earlier one.
  abbrev pub asked_by_request : Request T → Asked T
  asked_by_request r = asked_by_setters r.setters (plain r.verb [] [])

  -- What an action asks; an object is asked for by its name.
  abbrev pub asked_by_action : (T → Text) → Action T → Asked T
  asked_by_action name_of (get_action gvr ns name) = record (plain get gvr.resource ns) {
    name = some name;
  }
  asked_by_action name_of (list_action gvr gvk ns opts) = record (plain get gvr.resource ns) {
    selection = selected opts;
  }
  asked_by_action name_of (watch_action gvr ns opts) = record (plain get gvr.resource ns) {
    watches = true;
    selection = selected opts;
  }
  asked_by_action name_of (create_action gvr ns t) = record (plain post gvr.resource ns) {
    object = some t;
  }
  asked_by_action name_of (update_action gvr ns t) = record (plain put gvr.resource ns) {
    name = some (name_of t);
    object = some t;
  }
  asked_by_action name_of (update_subresource_action gvr sub ns t) =
      record (plain put gvr.resource ns) {
        name = some (name_of t);
        subresources = sub ∷ [];
        object = some t;
      }
  asked_by_action name_of (delete_action gvr ns name) = record (plain delete gvr.resource ns) {
    name = some name;
  }
  asked_by_action name_of (delete_collection_action gvr ns opts) =
      record (plain delete gvr.resource ns) { selection = selected opts }
  asked_by_action name_of (patch_subresource_action gvr ns name pt b subs) =
      record (plain (patch pt) gvr.resource ns) {
        name = some name;
        subresources = subs;
        bytes = some b;
      }

-- A server that answers what it is asked.
pub record Server (T W : Type 0) : Type 0 where
  pub objects : Asked T → T × Option Error
  pub lists : Asked T → SinkList T × Option Error
  pub watches : Asked T → Option W × Option Error
  pub label_of : ListOptions → Option (T → Bool)

-- The REST client and the fake of client-go in front of such a server.
module _ {T W : Type 0} (s : Server T W) where
  abbrev pub rest_of : Rest T (SinkList T) W
  rest_of = record {
    into_object = λ r. s.objects (asked_by_request r);
    into_list = λ r. s.lists (asked_by_request r);
    error = λ r. let (t, err) = s.objects (asked_by_request r) in err;
    watch = λ r. s.watches (asked_by_request r);
  }

  abbrev an_answer : T × Option Error → Option (Returned T) × Option Error
  an_answer (t, err) = (some (an_object t), err)

  abbrev list_answer : SinkList T × Option Error → Option (Returned T) × Option Error
  list_answer (l, err) = (some (a_list l), err)

  abbrev answer : (T → Text) → Action T → Option (Returned T) × Option Error
  answer name_of (list_action gvr gvk ns opts) =
      list_answer (s.lists (asked_by_action name_of (list_action gvr gvk ns opts)))
  answer name_of a = an_answer (s.objects (asked_by_action name_of a))

  abbrev pub tracker_of : (T → Text) → Tracker T W
  tracker_of name_of = record {
    invokes = answer name_of;
    invokes_watch = λ a. s.watches (asked_by_action name_of a);
    label_of = s.label_of;
  }
