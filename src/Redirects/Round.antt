-- ===== src/Redirects/Round.antt =====
-- From api/routes/post/redirects.go to redirects/redirects.go: where the short URL that one service
-- gives leads in the other.
