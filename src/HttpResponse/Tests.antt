-- ===== src/HttpResponse/Tests.antt =====
-- Each theorem about evpp/evpphttp/http_response.cc at a response of its own.
use evpp.Base.{true, false}
use evpp.HttpResponse.{HttpResponse}

abbrev in_chunks : HttpResponse
in_chunks = record {
  close = false;
  keep_alive = true;
  chunked = true;
  http_major = 1;
  http_minor = 1;
}

abbrev kept_alive : HttpResponse
kept_alive = record {
  close = false;
  keep_alive = true;
  chunked = false;
  http_major = 1;
  http_minor = 0;
}
