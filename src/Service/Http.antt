-- ===== src/Service/Http.antt =====
-- The envelope of a signed request: `ReadProtoRequest`, `WriteProtoResponse` and `WriteError` of
-- service/http_io.go and `callFunc` of service/http_srv.go.
pub mod Signed
use contact_server.Base.{
  ℕ, String, Bool, true, false, List, [], ◌∷◌, ◌++◌, Option, none, some, Error, error_text, Result,
  ok, err, panic, Exec,
}
use contact_server.Proto.{Bytes, BmReq, BmRsp}
use contact_server.Proto.Verify.{verify_proto}
use contact_server.Service.World.{Process, World}

-- What a handler writes: the text of `http.Error` or `Fprintln`, a JSON reply, or protobuf bytes.
pub data Chunk : Type 0 where
  text : String → Chunk
  bytes : Bytes → Chunk

-- A response writer. The status stands once the header or a first piece of the body is written;
-- later headers are dropped, the body grows.
pub record Writer : Type 0 where
  pub status : Option ℕ
  pub content_type : String
  pub body : List Chunk

abbrev pub no_response : Writer
no_response = record { status = none; content_type = ""; body = [] }

abbrev pub status_ok : ℕ
status_ok = 200

abbrev pub status_bad_request : ℕ
status_bad_request = 400

abbrev pub status_unauthorized : ℕ
status_unauthorized = 401

abbrev pub status_internal_server_error : ℕ
status_internal_server_error = 500

abbrev or_status : Option ℕ → ℕ → Option ℕ
or_status none code = some code
or_status (some old) code = some old

abbrev or_type : Option ℕ → String → String → String
or_type none old kind = kind
or_type (some _) old kind = old

-- `w.Header().Set("Content-Type", kind)`, `w.WriteHeader(code)` and `w.Write(chunk)`.
unfoldable pub respond : ℕ → String → Chunk → Writer → Writer
respond code kind chunk w = record {
  status = or_status w.status code;
  content_type = or_type w.status w.content_type kind;
  body = w.body ++ (chunk ∷ []);
}

-- `http.Error(w, message, code)`
unfoldable pub http_error : String → ℕ → Writer → Writer
unfolding respond
http_error message code = respond code "text/plain; charset=utf-8" (text message)

module _ (p : Process) where
  unfoldable pub write_proto_response : BmRsp → Writer → Writer
  unfolding respond
  write_proto_response response =
      respond status_ok "application/x-protobuf" (bytes (p.codec.marshal_response response))

  unfoldable pub write_error : Error → Writer → Writer
  unfolding respond error_text
  write_error e = respond status_internal_server_error "application/x-protobuf" (
      bytes
        (p.codec.marshal_response (record { success = false; msg = error_text e; payload = [] })))

  -- The body of a request, or the error of reading it. The reader answers a failed read itself.
  unfoldable pub read_proto_request : Result Bytes → Writer → Result BmReq × Writer
  unfolding http_error
  read_proto_request (ok body) w = (p.codec.unmarshal_request body, w)
  read_proto_request (err e) w = (err e, http_error "Unable to read body" status_bad_request w)
  read_proto_request (panic m) w = (panic m, w)

  -- The answer to what the handler returned; a panic is left to the recoverer of the router.
  abbrev answer : Result BmRsp → Writer → Result Writer
  answer (ok response) w = ok (write_proto_response response w)
  answer (err e) w = ok (write_error e w)
  answer (panic m) w = panic m

  module _ {D : Type 0} where
    abbrev verified :
        (BmReq → Exec (World D) BmRsp) → BmReq → Result (Unit {0}) → Writer → Exec (World D) Writer
    verified handler request (ok _) w s = let (r, s') = handler request s in (answer r w, s')
    verified handler request (err e) w s = (ok (write_error e w), s)
    verified handler request (panic m) w s = (panic m, s)

    abbrev decoded : (BmReq → Exec (World D) BmRsp) → Result BmReq × Writer → Exec (World D) Writer
    decoded handler (ok request, w) s = verified handler request (verify_proto p.crypto request) w s
    decoded handler (err e, w) s = (ok (write_error e w), s)
    decoded handler (panic m, w) s = (panic m, s)

    -- `callFunc`: the response to a request with this body.
    unfoldable pub call_func : (BmReq → Exec (World D) BmRsp) → Result Bytes → Exec (World D) Writer
    unfolding write_proto_response write_error read_proto_request verify_proto
    call_func handler body = decoded handler (read_proto_request body no_response)
