-- ===== src/Tcp/Tests.antt =====
-- Connections of api/src/unix/api_tcp.c.
use libapi.Base.{◌≡◌, refl, true, false}
use libapi.Errno.{api_ok}
use libapi.Tcp.Connect.{cleared, at_once, begin_connect, answers, conclude}

-- A connection that is made at once is open, but `epoll` does not know it, so that no event can wake a task
-- that reads from it.
made_at_once :
    begin_connect false at_once true true 0 4
    ≡ answers api_ok (record (cleared true 5) { registered = false })
unfolding begin_connect conclude
made_at_once = refl
