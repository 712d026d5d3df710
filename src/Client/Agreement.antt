-- ===== src/Client/Agreement.antt =====
-- The methods of a client in front of a server, by their calls.
use observability.Base.{ℕ, List, Option, Text}
use observability.Client.Request.{GetOptions, ListOptions, DeleteOptions, Error}
use observability.Client.Typed.{Client, methods, update_status}
use observability.Client.Fake.{SinkList}
use observability.Client.Asked.{Server, rest_of}

-- The call of a method with its arguments.
pub data Call (T : Type 0) : Type 0 where
  create_call update_call update_status_call : T → Call T
  delete_call : Text → Option DeleteOptions → Call T
  delete_collection_call : Option DeleteOptions → ListOptions → Call T
  get_call : Text → GetOptions → Call T
  list_call watch_call : ListOptions → Call T
  patch_call : Text → Text → List ℕ → List Text → Call T

pub data Result (T W : Type 0) : Type 0 where
  object_result : Option T × Option Error → Result T W
  list_result : Option (SinkList T) × Option Error → Result T W
  watch_result : Option W × Option Error → Result T W
  error_result : Option Error → Result T W

module _ {T W : Type 0} (resource ns : Text) (name_of : T → Text) (s : Server T W) where
  unfoldable pub client_of : Client T (SinkList T) W
  client_of = record { client = rest_of s; ns = ns }

  -- What the method of the client returns.
  unfoldable pub run_client : Call T → Result T W
  unfolding client_of
  run_client (create_call t) = object_result ((methods resource name_of client_of).create t)
  run_client (update_call t) = object_result ((methods resource name_of client_of).update t)
  run_client (update_status_call t) = object_result (update_status resource name_of client_of t)
  run_client (delete_call n o) = error_result ((methods resource name_of client_of).delete n o)
  run_client (delete_collection_call o l) =
      error_result ((methods resource name_of client_of).delete_collection o l)
  run_client (get_call n o) = object_result ((methods resource name_of client_of).get n o)
  run_client (list_call l) = list_result ((methods resource name_of client_of).list l)
  run_client (watch_call l) = watch_result ((methods resource name_of client_of).watch l)
  run_client (patch_call n pt b subs) =
      object_result ((methods resource name_of client_of).patch n pt b subs)
