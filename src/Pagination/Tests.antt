-- ===== src/Pagination/Tests.antt =====
-- Runs of utils/pagination.ts: page 3 of 10 results, cut after 7.
use zendesk_mcp_server.Base.{◌≡◌, refl, number_key, text_key}
use zendesk_mcp_server.Pagination.{offset_resume}

-- asked again by 7, page 4 starts at result 21 and repeats 6
resumed : offset_resume 3 10 7 ≡ record { per_page = 7; page = 4; repeated = 6 }
unfolding offset_resume
resumed = refl
